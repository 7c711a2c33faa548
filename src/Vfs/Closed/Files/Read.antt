-- ===== src/Vfs/Closed/Files/Read.antt =====
-- `read_file` on a closed table with a valid allocator.
use mathlib.Core.Path.{subst}
use rustix_os.Prelude.{
  ℕ, zero, suc, ◌+◌, ◌<◌, ◌≡◌, arith, ltb, ◌&&◌, Bool-cases, Option-cases, inl, inr, Option, none,
  some, List, [], ◌∷◌, ◌++◌, length, length-set, get_elem?-some,
}
use rustix_os.Outcome.{ok, err, panic, Outcome-cases}
use rustix_os.Frame.{page_size, read_byte}
use rustix_os.Allocator.{MemoryAllocator, Run, total_pages, on_frame, relocate_and_quarantine}
use rustix_os.Allocator.Invariant.{IsValid}
use rustix_os.Allocator.Safe.{Returned, Safe, Any, read-Safe, relocate-Safe}
use rustix_os.Vfs.Inode.{Text, file, InodeType-cases, Inode, VirtualFileSystem}
use rustix_os.Vfs.Path.{resolve_path}
use rustix_os.Vfs.Write.{VfsRun}
use rustix_os.Vfs.Read.{
  Reading, ReadReport, no_reading, take_byte, note_fault, note_move, read_block, block_fuel,
  read_blocks, commit_read, read_file,
}
use rustix_os.Vfs.Read.Fuel.{Returns, read_file-Returns}
use rustix_os.Vfs.Closed.{InPool, Points, IsClosed, AllPoint-get, resolve_path-Returned}
use rustix_os.Vfs.Closed.Files.{Keeps, err-Keeps, set_file-IsClosed}

-- The property holds of what there is.
abbrev pub Whenever {ℓ κ} : {A : Type ℓ} → (A → Type κ) → Option A → Type κ
Whenever P none = Unit
Whenever P (some x) = P x

abbrev InRange : ℕ × Reading → Type 0
InRange (b, s) = b < total_pages

-- Reading a block of the pool does not panic, and ends in a block of the pool.
read_block-Safe :
    (fuel o size b : ℕ) (s : Reading) (a : MemoryAllocator)
    → IsValid a
    → b < total_pages
    → Whenever (Safe InRange) (read_block fuel o size b s a)
unfolding read_block
read_block-Safe zero o size b s a valid lt = tt
read_block-Safe (suc fuel) o size b s a valid lt =
    elim (Bool-cases (ltb o page_size && ltb s.bytes_read size)) [
      | inr over ↦ rw (over, read_block) (record { returned = lt; valid = valid })
      | inl more ↦
          let r = on_frame a b (λ f. read_byte f o) in
          let safe = read-Safe a b o valid lt in
          elim (Outcome-cases r.0) [
            | inl p ↦ absurd (subst (Returned Any) p safe.returned)
            | inr (inr ((v, event), p)) ↦
                rw (more, read_block)
                  (rw (p, read_block)
                    (read_block-Safe fuel (o + 1) size b (take_byte v event s) r.1 safe.valid lt))
            | inr (inl (d, p)) ↦
                let r' = relocate_and_quarantine r.1 d in
                let safe' = relocate-Safe r.1 d safe.valid in
                elim (Outcome-cases r'.0) [
                  | inl q ↦ absurd (subst (Returned (λ n. n < total_pages)) q safe'.returned)
                  | inr (inl (e, q)) ↦
                      rw (more, read_block)
                        (rw (p, read_block)
                          (rw (q, read_block) (record { returned = tt; valid = safe'.valid })))
                  | inr (inr (n, q)) ↦
                      let lt' = subst (Returned (λ n. n < total_pages)) q safe'.returned in
                      rw (more, read_block)
                        (rw (p, read_block)
                          (rw (q, read_block)
                            (read_block-Safe fuel o size n (note_move (note_fault s)) r'.1
                              safe'.valid lt')))
                ]
          ]
    ]

abbrev AllInRange : List ℕ × Reading → Type 0
AllInRange (bs, s) = InPool bs

InPool-snoc : (bs : List ℕ) (b : ℕ) → InPool bs → b < total_pages → InPool (bs ++ b ∷ [])
InPool-snoc [] b h lt = (lt, tt)
InPool-snoc (x ∷ xs) b (l, h) lt = (l, InPool-snoc xs b h lt)

read_blocks-Safe :
    (bs : List ℕ) (size : ℕ) (before : List ℕ) (s : Reading) (a : MemoryAllocator)
    → IsValid a
    → InPool bs
    → InPool before
    → Whenever (Safe AllInRange) (read_blocks bs size before s a)
unfolding read_blocks
read_blocks-Safe [] size before s a valid h k = record { returned = k; valid = valid }
read_blocks-Safe (b ∷ bs) size before s a valid (lt, h) k =
    let safe = read_block-Safe block_fuel 0 size b s a valid lt in
    elim (Option-cases (read_block block_fuel 0 size b s a)) [
      | inl e ↦ rw (e, read_blocks) tt
      | inr ((r, a'), e) ↦
          let safe' : Safe InRange (r, a') = subst (Whenever (Safe InRange)) e safe in
          elim (Outcome-cases r) [
            | inl p ↦ absurd (subst (Returned InRange) p safe'.returned)
            | inr (inl (x, p)) ↦
                rw (e, read_blocks) (rw p (record { returned = tt; valid = safe'.valid }))
            | inr (inr ((frame, s'), p)) ↦
                rw (e, read_blocks)
                  (rw p (
                    read_blocks-Safe bs size (before ++ frame ∷ []) s' a' safe'.valid h
                      (InPool-snoc before frame k (subst (Returned InRange) p safe'.returned))))
          ]
    ]

commit_read-Keeps :
    (v : VirtualFileSystem) (idx : ℕ) (node : Inode) (size : ℕ)
    (r : Option (Run (List ℕ × Reading)))
    → IsClosed v
    → Whenever (Safe AllInRange) r
    → Whenever (Keeps Any (length v.inodes)) (commit_read v idx node size r)
commit_read-Keeps v idx node size none c h = tt
commit_read-Keeps v idx node size (some (ok (blocks, s), a)) c h =
    let node' = record node { inode_type = file blocks size } in
    record {
      returned = tt;
      closed = set_file-IsClosed v idx node' c h.returned;
      memory = h.valid;
      kept = omega (arith, length-set v.inodes idx node');
    }
commit_read-Keeps v idx node size (some (err e, a)) c h = err-Keeps c h.valid
commit_read-Keeps v idx node size (some (panic, a)) c h = absurd h.returned

pub read_file-Whenever :
    (v : VirtualFileSystem) (path : Text) (a : MemoryAllocator)
    → IsClosed v
    → IsValid a
    → Whenever (Keeps Any (length v.inodes)) (read_file v path a)
unfolding read_file
read_file-Whenever v path a c m =
    let found = resolve_path-Returned v path c in
    elim (Outcome-cases (resolve_path v path)) [
      | inl p ↦ absurd (rw p at found)
      | inr (inl (e, p)) ↦ rw (p, read_file) (err-Keeps c m)
      | inr (inr (idx, p)) ↦
          let lt : idx < length v.inodes = rw p at found in
          let x = get_elem?-some v.inodes idx lt in
          elim (InodeType-cases x.0.inode_type) [
            | inl (es, t) ↦ rw (p, x.1, t, read_file) (err-Keeps c m)
            | inr (blocks, size, t) ↦
                let pool : InPool blocks =
                  subst (Points (length v.inodes)) t
                    (AllPoint-get (length v.inodes) v.inodes idx c.points x.1) in
                rw (p, x.1, t, read_file)
                  (commit_read-Keeps v idx x.0 size (read_blocks blocks size [] no_reading a) c
                    (read_blocks-Safe blocks size [] no_reading a m pool tt))
          ]
    ]

-- On a closed table with a valid allocator, reading any path ends within its fuel, returns without
-- a panic, and leaves the table closed and the allocator valid.
pub read_file-Keeps :
    (v : VirtualFileSystem) (path : Text) (a : MemoryAllocator)
    → IsClosed v
    → IsValid a
    → (r : VfsRun (List ℕ × ReadReport)) × (read_file v path a ≡ some r)
      × Keeps Any (length v.inodes) r
read_file-Keeps v path a c m = elim (Option-cases (read_file v path a)) [
  | inl e ↦ absurd (subst Returns e (read_file-Returns v path a m))
  | inr (r, e) ↦
      (r, e, subst (Whenever (Keeps Any (length v.inodes))) e (read_file-Whenever v path a c m))
]
