-- ===== src/Vfs/Lost.antt =====
-- What the move of a page by `relocate_and_quarantine`, as the sweep of the scrubber makes it, does
-- to a file that lists the page: virtual-fs/src/vfs.rs, `read_file`.
use rustix_os.Prelude.{
  ℕ, zero, suc, ◌+◌, ◌≤◌, ◌<◌, ◌≡◌, ◌≢◌, ◌∙◌, refl, ap, true, false, leb, ltb, ◌&&◌, arith, inl,
  inr, ◌⊎◌, Option, none, some, List, ◌∷◌, length, get_elem?, get_or, set, get_elem?-set_self,
  get_elem?-set_ne, get_or-set_ne, lt-of_get_elem?,
}
use mathlib.Core.Path.{}
use rustix_os.Outcome.{ok, err, not_allocated}
use rustix_os.Ecc.{DecodeResult, no_error, corrected, uncorrectable, encode, decode}
use rustix_os.Frame.{
  PhysicalFrame, CorrectionEvent, page_size, quarantined, note_correction, take_decoded, read_byte,
}
use rustix_os.Frame.RoundTrip.{read_byte_lem}
use rustix_os.Allocator.{MemoryAllocator, Run, total_pages, on_frame, relocate_and_quarantine}
use rustix_os.Allocator.Invariant.{IsValid}
use rustix_os.Allocator.Relocate.{Relocates, moved, no_room, relocate-Relocates}
use rustix_os.Vfs.Inode.{Text, file, Inode, VirtualFileSystem}
use rustix_os.Vfs.Path.{resolve_path}
use rustix_os.Vfs.Read.{
  Reading, no_reading, take_byte, read_block, block_fuel, read_blocks, read_file,
}

-- Frame `d` belongs to nobody, and its word at `o` is destroyed.
record Dropped (d o : ℕ) (a : MemoryAllocator) : Type 0 where
  frame : PhysicalFrame
  stands : get_elem? a.frames d ≡ some frame
  at_index : frame.index ≡ d
  destroyed : decode (get_or frame.words o 0) ≡ uncorrectable
  unowned : get_elem? a.allocation_map d ≡ some none

Relocates-Dropped :
    {a : MemoryAllocator} {d o pid : ℕ} {f : PhysicalFrame} {r : Run ℕ}
    → get_elem? a.allocation_map d ≡ some (some pid)
    → get_elem? a.frames d ≡ some f
    → f.index ≡ d
    → decode (get_or f.words o 0) ≡ uncorrectable
    → Relocates a d pid f r
    → Dropped d o r.1
Relocates-Dropped {a} {d} {o} {pid} {f} owned hf hi bad (moved n g g' hn ne free hg saved) =
    record {
      frame = record f { status = quarantined };
      stands =
          get_elem?-set_ne (set a.frames d (record f { status = quarantined })) g' ne
          ∙ get_elem?-set_self a.frames d _ (lt-of_get_elem? a.frames d hf);
      at_index = hi;
      destroyed = bad;
      unowned =
          get_elem?-set_ne (set a.allocation_map d none) (some pid) ne
          ∙ get_elem?-set_self a.allocation_map d none (lt-of_get_elem? a.allocation_map d owned);
    }
Relocates-Dropped {a} {d} {o} {pid} {f} owned hf hi bad (no_room h) = record {
  frame = record f { status = quarantined };
  stands = get_elem?-set_self a.frames d _ (lt-of_get_elem? a.frames d hf);
  at_index = hi;
  destroyed = bad;
  unowned = get_elem?-set_self a.allocation_map d none (lt-of_get_elem? a.allocation_map d owned);
}

-- Nobody's page is not moved again.
relocate_unowned :
    (a : MemoryAllocator) (d : ℕ)
    → d < total_pages
    → get_elem? a.allocation_map d ≡ some none
    → relocate_and_quarantine a d ≡ (err not_allocated, a)
unfolding relocate_and_quarantine
relocate_unowned a d lt h =
    let inside : leb total_pages d ≡ false = ground arith in
    rw (inside, h, relocate_and_quarantine) refl

on_frame_at :
    (a : MemoryAllocator) (d i : ℕ) (f : PhysicalFrame)
    → get_elem? a.frames d ≡ some f
    → i < page_size
    → on_frame a d (λ g. read_byte g i) ≡ (
      (take_decoded f i (decode (get_or f.words i 0))).0,
      record a { frames = set a.frames d (take_decoded f i (decode (get_or f.words i 0))).1 },
    )
unfolding on_frame
on_frame_at a d i f hf lt = rw (hf, on_frame) (rw (read_byte_lem f i lt) refl)

DecodeResult-cases :
    (r : DecodeResult)
    → (r ≡ uncorrectable) ⊎ ((v : ℕ) × (r ≡ no_error v)) ⊎ ((v : ℕ) × (p : ℕ) × (r ≡ corrected v p))
DecodeResult-cases uncorrectable = inl refl
DecodeResult-cases (no_error v) = inr (inl (v, refl))
DecodeResult-cases (corrected v p) = inr (inr (v, p, refl))

-- The read fails with the error of a page that is not allocated.
abbrev Fails : {A : Type 0} → Option (Run A) → Type 0
Fails r = (a : MemoryAllocator) × (r ≡ some (err not_allocated, a))

kept-Dropped :
    {d o : ℕ} (a : MemoryAllocator) (f : PhysicalFrame)
    → d < length a.frames
    → f.index ≡ d
    → decode (get_or f.words o 0) ≡ uncorrectable
    → get_elem? a.allocation_map d ≡ some none
    → Dropped d o (record a { frames = set a.frames d f })
kept-Dropped {d} {o} a f lt hi bad unowned = record {
  frame = f;
  stands = get_elem?-set_self a.frames d f lt;
  at_index = hi;
  destroyed = bad;
  unowned = unowned;
}

read_block-Fails :
    (fuel i o size d : ℕ) (s : Reading) (a : MemoryAllocator)
    → Dropped d o a
    → d < total_pages
    → o < page_size
    → o < size
    → i ≤ o
    → o < fuel + i
    → s.bytes_read ≡ i
    → Fails (read_block fuel i size d s a)
unfolding read_block
read_block-Fails zero i o size d s a h hd ho hs le enough e = absurd (omega arith)
read_block-Fails (suc fuel) i o size d s a h hd ho hs le enough e =
    let more : (ltb i page_size && ltb s.bytes_read size) ≡ true = ground (arith, e) in
    let f = h.frame in
    let lt = lt-of_get_elem? a.frames d h.stands in
    let got = on_frame_at a d i f h.stands (omega arith) in
    elim (DecodeResult-cases (decode (get_or f.words i 0))) [
      | inl bad ↦
          let a' : MemoryAllocator = record a {
            frames = set a.frames d (record f { status = quarantined });
          } in
          let fault : on_frame a d (λ g. read_byte g i) ≡ (err d, a') =
            got ∙ rw (bad, h.at_index) refl in
          rw (more, read_block)
            (rw (fault, read_block)
              (rw fault (rw (relocate_unowned a' d hd h.unowned, read_block) (_, refl))))
      | inr (inl (v, fine)) ↦
          let a' : MemoryAllocator = record a { frames = set a.frames d f } in
          let step : on_frame a d (λ g. read_byte g i) ≡ (ok (v, none), a') = got ∙ rw fine refl in
          let ne : i ≢ o = λ q. cc (fine, h.destroyed, ap (λ j. decode (get_or f.words j 0)) q) in
          rw (more, read_block)
            (rw (step, read_block)
              (rw step (
                read_block-Fails fuel (i + 1) o size d (take_byte v none s) a'
                  (kept-Dropped a f lt h.at_index h.destroyed h.unowned) hd ho hs
                  (omega (arith, ne)) (omega arith) (omega (arith, e)))))
      | inr (inr (v, p, fixed)) ↦
          let g : PhysicalFrame = record f {
            words = set f.words i (encode v);
            status = note_correction f.status;
          } in
          let event : Option CorrectionEvent =
            some (record { frame_index = f.index; offset = i; bit_position = p }) in
          let a' : MemoryAllocator = record a { frames = set a.frames d g } in
          let step : on_frame a d (λ g. read_byte g i) ≡ (ok (v, event), a') =
            got ∙ rw fixed refl in
          let ne : i ≢ o = λ q. cc (fixed, h.destroyed, ap (λ j. decode (get_or f.words j 0)) q) in
          let bad : decode (get_or g.words o 0) ≡ uncorrectable =
            ap decode (get_or-set_ne f.words i o (encode v) 0 ne) ∙ h.destroyed in
          rw (more, read_block)
            (rw (step, read_block)
              (rw step (
                read_block-Fails fuel (i + 1) o size d (take_byte v event s) a'
                  (kept-Dropped a g lt h.at_index bad h.unowned) hd ho hs (omega (arith, ne))
                  (omega arith) (omega (arith, e)))))
    ]

-- A file loses its first page when `relocate_and_quarantine` moves it outside of a read of the file,
-- as the sweep of a tick does: with a destroyed word among the bytes of the file, the next read of
-- the file fails, because the inode still lists the frame that the page has left.
pub read_file-relocated :
    (v : VirtualFileSystem) (path : Text) (idx : ℕ) (node : Inode) (d size : ℕ) (bs : List ℕ)
    (a : MemoryAllocator) (o pid : ℕ) (g : PhysicalFrame)
    → IsValid a
    → resolve_path v path ≡ ok idx
    → get_elem? v.inodes idx ≡ some node
    → node.inode_type ≡ file (d ∷ bs) size
    → get_elem? a.allocation_map d ≡ some (some pid)
    → get_elem? a.frames d ≡ some g
    → o < page_size
    → o < size
    → decode (get_or g.words o 0) ≡ uncorrectable
    → (a' : MemoryAllocator) × (read_file v path (relocate_and_quarantine a d).1
        ≡ some (err not_allocated, v, a'))
unfolding read_file read_blocks
read_file-relocated v path idx node d size bs a o pid g valid resolves stands is_file owned hg ho hs
      bad =
    let lt : d < total_pages = rw (← valid.frames_full) (lt-of_get_elem? a.frames d hg) in
    let dropped =
      Relocates-Dropped {o = o} owned hg (valid.each d g hg).at_index bad
        (relocate-Relocates a d pid g valid owned hg) in
    let r =
      read_block-Fails block_fuel 0 o size d no_reading (relocate_and_quarantine a d).1 dropped lt
        ho hs (omega arith) (omega arith) refl in
    (r.0, rw (resolves, read_file) (rw stands (rw is_file (rw (r.1, read_blocks) refl))))
