-- ===== src/Vfs/Read/Fuel.antt =====
-- The fuel of `read_block` is enough: reading ends, whatever the memory holds.
use mathlib.Core.Path.{subst}
use rustix_os.Prelude.{
  ℕ, zero, suc, ◌+◌, ◌≤◌, ◌<◌, ◌≡◌, ◌∙◌, refl, ap, ltb, leb, ◌&&◌, arith, Bool-cases, Option-cases,
  true, inl, inr, Option, none, some, List, [], ◌∷◌, ◌++◌, get_or, get_elem?, get_elem?-some,
  set_elem_same, get_elem?-set_self, lt-of_get_elem?,
}
use rustix_os.Outcome.{Outcome, ok, err, panic, Error, Outcome-cases}
use rustix_os.Ecc.{DecodeResult, no_error, corrected, uncorrectable, decode}
use rustix_os.Frame.{PhysicalFrame, page_size, read_byte}
use rustix_os.Frame.RoundTrip.{read_byte_lem}
use rustix_os.Allocator.{MemoryAllocator, Run, total_pages, on_frame, relocate_and_quarantine}
use rustix_os.Allocator.Invariant.{IsValid, on_frame_lem}
use rustix_os.Allocator.Relocate.{
  Relocates, without, moved, no_room, isolate-IsValid, relocate-Relocates,
}
use rustix_os.Allocator.Safe.{read-Safe, relocate-Safe}
use rustix_os.Scrubber.Scan.{CleanBelow, is_clean}
use rustix_os.Scrubber.Page.{Saved-clean}
use rustix_os.Vfs.Read.{
  Reading, take_byte, note_fault, note_move, read_block, block_fuel, read_blocks, ReadReport,
  no_reading, commit_read, read_file,
}
use rustix_os.Vfs.Inode.{Text, InodeType-cases, Inode, VirtualFileSystem}
use rustix_os.Vfs.Path.{resolve_path}
use rustix_os.Vfs.Write.{VfsRun}

-- The loop ended, and left a valid allocator.
abbrev pub Ends {ℓ} : {A : Type ℓ} → Option (Run A) → Type 0
Ends none = ⊥
Ends (some (r, a)) = IsValid a

-- A page that relocation returned holds no error.
abbrev Fresh : Outcome ℕ Error → MemoryAllocator → Type 0
Fresh (ok n) a =
    (g : PhysicalFrame) × (get_elem? a.frames n ≡ some g) × CleanBelow page_size g.words
Fresh (err e) a = Unit {0}
Fresh panic a = Unit {0}

Relocates-Fresh :
    {a : MemoryAllocator} {d pid : ℕ} {f : PhysicalFrame} {r : Run ℕ}
    → IsValid (without a d f)
    → Relocates a d pid f r
    → Fresh r.0 r.1
Relocates-Fresh {a} {d} {pid} {f} v (moved n g g' hn ne free hg saved) =
    (g', get_elem?-set_self (without a d f).frames n g' (rw v.frames_full hn), Saved-clean saved)
Relocates-Fresh v (no_room h) = tt

relocate-Fresh :
    (a : MemoryAllocator) (d : ℕ)
    → IsValid a
    → Fresh (relocate_and_quarantine a d).0 (relocate_and_quarantine a d).1
unfolding relocate_and_quarantine
relocate-Fresh a d valid = elim (Bool-cases (leb total_pages d)) [
  | inl e ↦ rw (e, relocate_and_quarantine) tt
  | inr e ↦
      let o = get_elem?-some a.allocation_map d (rw valid.map_full (ground arith)) in
      let f = get_elem?-some a.frames d (rw valid.frames_full (ground arith)) in
      elim (Option-cases o.0) [
        | inl free ↦ rw (e, o.1 ∙ ap some free, relocate_and_quarantine) tt
        | inr (pid, owned) ↦
            Relocates-Fresh (isolate-IsValid valid d pid f.0 f.1)
              (relocate-Relocates a d pid f.0 valid (o.1 ∙ ap some owned) f.1)
      ]
]

clean_value : (r : DecodeResult) → is_clean r ≡ true → (v : ℕ) × (r ≡ no_error v)
clean_value (no_error v) h = (v, refl)
clean_value (corrected v p) h = ground arith
clean_value uncorrectable h = ground arith

-- A page without errors needs one round for each byte and one to see the end.
read_block-clean :
    (fuel o size b : ℕ) (s : Reading) (a : MemoryAllocator) (f : PhysicalFrame)
    → IsValid a
    → get_elem? a.frames b ≡ some f
    → CleanBelow page_size f.words
    → o ≤ page_size
    → page_size < fuel + o
    → Ends (read_block fuel o size b s a)
unfolding read_block
read_block-clean zero o size b s a f valid hf clean ho enough = absurd (omega arith)
read_block-clean (suc fuel) o size b s a f valid hf clean ho enough =
    elim (Bool-cases (ltb o page_size && ltb s.bytes_read size)) [
      | inr over ↦ rw (over, read_block) valid
      | inl more ↦
          let lt : o < page_size = ground arith in
          let d = clean_value (decode (get_or f.words o 0)) (clean o lt) in
          let got : on_frame a b (λ f. read_byte f o) ≡ (ok (d.0, none), a) =
            on_frame_lem a b (λ f. read_byte f o) hf
            ∙ rw (read_byte_lem f o lt, d.1)
                (ap (λ (t : List PhysicalFrame). (ok (d.0, none), record a { frames = t }))
                  (set_elem_same a.frames b f hf)) in
          rw (more, read_block)
            (rw (got, read_block)
              (rw got (
                read_block-clean fuel (o + 1) size b (take_byte d.0 none s) a f valid hf clean
                  (omega arith) (omega arith))))
    ]

on_frame_missing :
    (a : MemoryAllocator) (b o : ℕ)
    → get_elem? a.frames b ≡ none
    → on_frame a b (λ f. read_byte f o) ≡ (panic, a)
unfolding on_frame
on_frame_missing a b o h = rw (h, on_frame) refl

-- One more round is for the fault that moves the page.
read_block-Ends :
    (fuel o size b : ℕ) (s : Reading) (a : MemoryAllocator)
    → IsValid a
    → o ≤ page_size
    → page_size + 1 < fuel + o
    → Ends (read_block fuel o size b s a)
unfolding read_block
read_block-Ends zero o size b s a valid ho enough = absurd (omega arith)
read_block-Ends (suc fuel) o size b s a valid ho enough =
    elim (Bool-cases (ltb o page_size && ltb s.bytes_read size)) [
      | inr over ↦ rw (over, read_block) valid
      | inl more ↦ elim (Option-cases (get_elem? a.frames b)) [
        | inl missing ↦
            let gone : on_frame a b (λ f. read_byte f o) ≡ (panic, a) =
              on_frame_missing a b o missing in
            rw (more, read_block) (rw (gone, read_block) (rw gone valid))
        | inr (f, hf) ↦
            let r = on_frame a b (λ f. read_byte f o) in
            let safe =
              read-Safe a b o valid
                (subst (λ n. b < n) valid.frames_full (lt-of_get_elem? a.frames b hf)) in
            elim (Outcome-cases r.0) [
              | inl p ↦ rw (more, read_block) (rw (p, read_block) safe.valid)
              | inr (inr ((v, event), p)) ↦
                  rw (more, read_block)
                    (rw (p, read_block)
                      (read_block-Ends fuel (o + 1) size b (take_byte v event s) r.1 safe.valid
                        (ground arith) (omega arith)))
              | inr (inl (d, p)) ↦
                  let r' = relocate_and_quarantine r.1 d in
                  let safe' = relocate-Safe r.1 d safe.valid in
                  let fresh = relocate-Fresh r.1 d safe.valid in
                  elim (Outcome-cases r'.0) [
                    | inl q ↦
                        rw (more, read_block) (rw (p, read_block) (rw (q, read_block) safe'.valid))
                    | inr (inl (e, q)) ↦
                        rw (more, read_block) (rw (p, read_block) (rw (q, read_block) safe'.valid))
                    | inr (inr (n, q)) ↦
                        let page = subst (λ t. Fresh t r'.1) q fresh in
                        rw (more, read_block)
                          (rw (p, read_block)
                            (rw (q, read_block)
                              (read_block-clean fuel o size n (note_move (note_fault s)) r'.1 page.0
                                safe'.valid page.1 page.2 ho (omega arith))))
                  ]
            ]
      ]
    ]

read_blocks-Ends :
    (bs : List ℕ) (size : ℕ) (before : List ℕ) (s : Reading) (a : MemoryAllocator)
    → IsValid a
    → Ends (read_blocks bs size before s a)
unfolding read_blocks
read_blocks-Ends [] size before s a valid = valid
read_blocks-Ends (b ∷ bs) size before s a valid =
    let ends = read_block-Ends block_fuel 0 size b s a valid (omega arith) (omega arith) in
    elim (Option-cases (read_block block_fuel 0 size b s a)) [
      | inl e ↦ absurd (subst Ends e ends)
      | inr ((r, a'), e) ↦
          let valid' : IsValid a' = subst Ends e ends in
          elim (Outcome-cases r) [
            | inl p ↦ rw (e, read_blocks) (rw p valid')
            | inr (inl (x, p)) ↦ rw (e, read_blocks) (rw p valid')
            | inr (inr ((frame, s'), p)) ↦
                rw (e, read_blocks)
                  (rw p (read_blocks-Ends bs size (before ++ frame ∷ []) s' a' valid'))
          ]
    ]

-- The call ended, and left a valid allocator.
abbrev pub Returns : Option (VfsRun (List ℕ × ReadReport)) → Type 0
Returns none = ⊥
Returns (some (r, v, a)) = IsValid a

commit_read-Returns :
    (v : VirtualFileSystem) (idx : ℕ) (node : Inode) (size : ℕ)
    (r : Option (Run (List ℕ × Reading)))
    → Ends r
    → Returns (commit_read v idx node size r)
commit_read-Returns v idx node size none h = h
commit_read-Returns v idx node size (some (ok (blocks, s), a)) h = h
commit_read-Returns v idx node size (some (err e, a)) h = h
commit_read-Returns v idx node size (some (panic, a)) h = h

-- On a valid allocator a read of any path ends within its fuel, whatever bits have flipped, and
-- leaves the allocator valid.
pub read_file-Returns :
    (v : VirtualFileSystem) (path : Text) (a : MemoryAllocator)
    → IsValid a
    → Returns (read_file v path a)
unfolding read_file
read_file-Returns v path a valid = elim (Outcome-cases (resolve_path v path)) [
  | inl p ↦ rw (p, read_file) valid
  | inr (inl (e, p)) ↦ rw (p, read_file) valid
  | inr (inr (idx, p)) ↦ elim (Option-cases (get_elem? v.inodes idx)) [
    | inl q ↦ rw (p, read_file) (rw q valid)
    | inr (node, q) ↦ elim (InodeType-cases node.inode_type) [
      | inl (entries, t) ↦ rw (p, read_file) (rw q (rw t valid))
      | inr (blocks, size, t) ↦
          rw (p, read_file)
            (rw q (
              rw t (
                commit_read-Returns v idx node size _
                  (read_blocks-Ends blocks size [] no_reading a valid))))
    ]
  ]
]
