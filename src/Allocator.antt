-- ===== src/Allocator.antt =====
-- memory-subsystem/src/allocator.rs, `MemoryAllocator`: the frames, who owns them, and relocation.
-- An operation returns the outcome beside the allocator that it leaves; an index past the end of a
-- vector is a panic.
pub mod Invariant
pub mod Free
pub mod Relocate
pub mod Safe
use package.rustix_os.Prelude.{
  ℕ, zero, suc, ◌+◌, ◌*◌, Bool, leb, ltb, if◌then◌else◌, Option, none, some, List, [], ◌∷◌, length,
  get_elem?, get_or, set,
}
use package.rustix_os.Outcome.{
  Outcome, ok, err, panic, Error, invalid_frame, frame_out_of_bounds, offset_out_of_bounds,
  bit_out_of_bounds, damaged_out_of_bounds, not_allocated, relocation_out_of_memory,
}
use package.rustix_os.Ecc.{DecodeResult, no_error, corrected, uncorrectable, decode}
use package.rustix_os.Frame
use package.rustix_os.Frame.{
  PhysicalFrame, page_size, quarantined, is_quarantined, write_byte, flip_bit,
}

abbrev pub total_pages : ℕ
total_pages = 64

-- An owner is the PID of a process.
pub record MemoryAllocator : Type 0 where
  pub frames : List PhysicalFrame
  pub allocation_map : List (Option ℕ)

abbrev pub Run {ℓ} : Type ℓ → Type ℓ
Run A = Outcome A Error × MemoryAllocator

-- The loop of `new`, with `left` rounds to go from `idx`.
unfoldable pub new_from : ℕ → ℕ → MemoryAllocator
new_from zero idx = record { frames = []; allocation_map = [] }
new_from (suc left) idx =
    let rest = new_from left (idx + 1) in
    record {
      frames = Frame.new idx (idx * page_size) ∷ rest.frames;
      allocation_map = none ∷ rest.allocation_map;
    }

unfoldable pub new : MemoryAllocator
unfolding new_from
new = new_from total_pages 0

-- The search of `allocate_page` from `idx`, with `left` frames to look at.
unfoldable pub find_free : ℕ → ℕ → MemoryAllocator → Outcome (Option ℕ) Error
find_free zero idx a = ok none
find_free (suc left) idx a =
    let rest = find_free left (idx + 1) a in
    elim (get_elem? a.allocation_map idx) [
      | none ↦ panic
      | some (some pid) ↦ rest
      | some none ↦ elim (get_elem? a.frames idx) [
        | none ↦ panic
        | some f ↦ if is_quarantined f.status then rest else ok (some idx)
      ]
    ]

abbrev pub give : ℕ → MemoryAllocator → Outcome (Option ℕ) Error → Run (Option ℕ)
give pid a (ok (some idx)) =
    (ok (some idx), record a { allocation_map = set a.allocation_map idx (some pid) })
give pid a (ok none) = (ok none, a)
give pid a (err e) = (err e, a)
give pid a panic = (panic, a)

unfoldable pub allocate_page : MemoryAllocator → ℕ → Run (Option ℕ)
allocate_page a pid = give pid a (find_free total_pages 0 a)

unfoldable pub deallocate_page : MemoryAllocator → ℕ → Run (Unit {0})
deallocate_page a i =
    if leb total_pages i
    then (err invalid_frame, a)
    else if ltb i (length a.allocation_map)
    then (ok tt, record a { allocation_map = set a.allocation_map i none })
    else (panic, a)

unfoldable pub inject_bit_flip : MemoryAllocator → ℕ → ℕ → ℕ → Run (Unit {0})
inject_bit_flip a i offset bit_index =
    if leb total_pages i
    then (err frame_out_of_bounds, a)
    else if leb page_size offset
    then (err offset_out_of_bounds, a)
    else if leb 16 bit_index
    then (err bit_out_of_bounds, a)
    else elim (get_elem? a.frames i) [
      | none ↦ (panic, a)
      | some f ↦ (ok tt, record a { frames = set a.frames i (flip_bit f offset bit_index) })
    ]

-- `frames[i].method(…)`.
unfoldable pub on_frame {ℓ κ} :
    {A : Type ℓ} {E : Type κ}
    → MemoryAllocator
    → ℕ
    → (PhysicalFrame → Outcome A E × PhysicalFrame)
    → Outcome A E × MemoryAllocator
on_frame a i method = elim (get_elem? a.frames i) [
  | none ↦ (panic, a)
  | some f ↦ let (r, f') = method f in (r, record a { frames = set a.frames i f' })
]

-- What relocation saves of a word: 0 if it is destroyed.
unfoldable pub salvage : DecodeResult → ℕ
salvage (no_error v) = v
salvage (corrected v p) = v
salvage uncorrectable = 0

-- The copying loop of `relocate_and_quarantine`, with `left` bytes to go from `offset`. The outcome
-- of each write is ignored, as in the source.
unfoldable pub copy_page : ℕ → ℕ → MemoryAllocator → ℕ → ℕ → Run (Unit {0})
unfolding salvage
copy_page zero offset a damaged fresh = (ok tt, a)
copy_page (suc left) offset a damaged fresh = elim (get_elem? a.frames damaged) [
  | none ↦ (panic, a)
  | some f ↦ elim (get_elem? a.frames fresh) [
    | none ↦ (panic, a)
    | some g ↦
        let byte = salvage (decode (get_or f.words offset 0)) in
        let a' = record a { frames = set a.frames fresh (write_byte g offset byte).1 } in
        copy_page left (offset + 1) a' damaged fresh
  ]
]

abbrev pub copied : ℕ → Run (Unit {0}) → Run ℕ
copied fresh (ok u, a) = (ok fresh, a)
copied fresh (err e, a) = (err e, a)
copied fresh (panic, a) = (panic, a)

-- What follows the allocation of the fresh frame.
abbrev pub move_page : ℕ → Run (Option ℕ) → Run ℕ
move_page damaged (ok (some fresh), a) = copied fresh (copy_page page_size 0 a damaged fresh)
move_page damaged (ok none, a) = (err relocation_out_of_memory, a)
move_page damaged (err e, a) = (err e, a)
move_page damaged (panic, a) = (panic, a)

-- The damaged frame `f` leaves the hands of its owner.
unfoldable pub isolate : MemoryAllocator → ℕ → PhysicalFrame → MemoryAllocator
isolate a damaged f = record {
  frames = set a.frames damaged (record f { status = quarantined });
  allocation_map = set a.allocation_map damaged none;
}

unfoldable pub relocate_and_quarantine : MemoryAllocator → ℕ → Run ℕ
unfolding isolate
relocate_and_quarantine a damaged =
    if leb total_pages damaged
    then (err damaged_out_of_bounds, a)
    else elim (get_elem? a.allocation_map damaged) [
      | none ↦ (panic, a)
      | some none ↦ (err not_allocated, a)
      | some (some pid) ↦ elim (get_elem? a.frames damaged) [
        | none ↦ (panic, a)
        | some f ↦ move_page damaged (allocate_page (isolate a damaged f) pid)
      ]
    ]
