-- ===== src/Allocator/Free.antt =====
-- `allocate_page` and `deallocate_page`: which frame is handed out, and what comes back.
use rustix_os.Prelude.{
  ℕ, zero, suc, ◌+◌, ◌≤◌, ◌<◌, ◌≡◌, refl, ◌==◌, if◌then◌else◌, arith, not, Bool, true, false,
  Bool-cases, inl, inr, ◌⊎◌, Option, none, some, get_elem?, set, get_elem?-some, length-set,
  set_back,
}
use rustix_os.Outcome.{Outcome, ok, Error}
use rustix_os.Frame.{PhysicalFrame, is_quarantined}
use rustix_os.Allocator.{
  MemoryAllocator, Run, total_pages, find_free, give, allocate_page, deallocate_page,
}
use rustix_os.Allocator.Invariant.{IsValid, set_owner-IsValid}

-- A frame that nobody owns and that is not quarantined.
abbrev pub is_free : MemoryAllocator → ℕ → Bool
is_free a i = elim (get_elem? a.allocation_map i) [
  | none ↦ false
  | some (some pid) ↦ false
  | some none ↦ elim (get_elem? a.frames i) [
    | none ↦ false
    | some f ↦ not (is_quarantined f.status)
  ]
]

abbrev pub NoneFree : MemoryAllocator → ℕ → ℕ → Type 0
NoneFree a lo hi = (j : ℕ) → lo ≤ j → j < hi → is_free a j ≡ false

data FirstFree (a : MemoryAllocator) (lo hi : ℕ) : Outcome (Option ℕ) Error → Type 0 where
  found :
      (i : ℕ)
      → lo ≤ i
      → i < hi
      → is_free a i ≡ true
      → NoneFree a lo i
      → FirstFree a lo hi (ok (some i))
  full : NoneFree a lo hi → FirstFree a lo hi (ok none)

NoneFree-cons :
    (a : MemoryAllocator) (lo hi : ℕ)
    → is_free a lo ≡ false
    → NoneFree a (lo + 1) hi
    → NoneFree a lo hi
NoneFree-cons a lo hi e rest j h k = elim (Bool-cases (lo == j)) [
  | inl s ↦ let p : lo ≡ j = ground arith in rw (← p) e
  | inr s ↦ rest j (ground arith) k
]

FirstFree-later :
    (a : MemoryAllocator) (lo hi : ℕ) {r : Outcome (Option ℕ) Error}
    → is_free a lo ≡ false
    → FirstFree a (lo + 1) hi r
    → FirstFree a lo hi r
FirstFree-later a lo hi e (found i h k f n) = found i (omega arith) k f (NoneFree-cons a lo i e n)
FirstFree-later a lo hi e (full n) = full (NoneFree-cons a lo hi e n)

find_free_step :
    (a : MemoryAllocator) (left idx : ℕ) {o : Option ℕ} {f : PhysicalFrame}
    → get_elem? a.allocation_map idx ≡ some o
    → get_elem? a.frames idx ≡ some f
    → find_free (suc left) idx a
      ≡ (if is_free a idx then ok (some idx) else find_free left (idx + 1) a)
unfolding find_free
find_free_step a left idx ho hf = ground arith

find_free-FirstFree :
    (a : MemoryAllocator)
    → IsValid a
    → (left idx : ℕ) → idx + left ≡ total_pages
    → FirstFree a idx total_pages (find_free left idx a)
unfolding find_free
find_free-FirstFree a valid zero idx e = full (λ j h k. absurd (omega arith))
find_free-FirstFree a valid (suc left) idx e =
    let rest = find_free-FirstFree a valid left (idx + 1) (omega arith) in
    let o = get_elem?-some a.allocation_map idx (rw valid.map_full (omega arith)) in
    let f = get_elem?-some a.frames idx (rw valid.frames_full (omega arith)) in
    rw (find_free_step a left idx o.1 f.1) (elim (Bool-cases (is_free a idx)) [
      | inl free ↦
          rw free (found idx (omega arith) (omega arith) free (λ j h k. absurd (omega arith)))
      | inr taken ↦ rw taken (FirstFree-later a idx total_pages taken rest)
    ])

-- What `allocate_page` may answer: the least free frame, which goes to `pid`, or that none is free.
pub data Allocates (a : MemoryAllocator) (pid : ℕ) : Run (Option ℕ) → Type 0 where
  given :
      (i : ℕ)
      → i < total_pages
      → is_free a i ≡ true
      → NoneFree a 0 i
      → Allocates a pid
          (ok (some i), record a { allocation_map = set a.allocation_map i (some pid) })
  exhausted : NoneFree a 0 total_pages → Allocates a pid (ok none, a)

give-Allocates :
    (a : MemoryAllocator) (pid : ℕ) {r : Outcome (Option ℕ) Error}
    → FirstFree a 0 total_pages r
    → Allocates a pid (give pid a r)
give-Allocates a pid (found i h k f n) = given i k f n
give-Allocates a pid (full n) = exhausted n

-- On a valid allocator `allocate_page` does not panic: it gives the process the least frame that is
-- neither owned nor quarantined, changing that one entry of the map, or, when there is no such
-- frame, answers `None` and changes nothing.
pub allocate_page-Allocates :
    (a : MemoryAllocator) (pid : ℕ) → IsValid a → Allocates a pid (allocate_page a pid)
unfolding allocate_page
allocate_page-Allocates a pid valid =
    give-Allocates a pid (find_free-FirstFree a valid total_pages 0 refl)

pub Allocates-IsValid :
    {a : MemoryAllocator} {pid : ℕ} {r : Run (Option ℕ)}
    → IsValid a
    → Allocates a pid r
    → IsValid r.1
Allocates-IsValid {pid = pid} valid (given i h f n) = set_owner-IsValid valid i (some pid)
Allocates-IsValid valid (exhausted n) = valid

-- Allocation keeps an allocator valid.
pub allocate_page-IsValid :
    (a : MemoryAllocator) (pid : ℕ) → IsValid a → IsValid (allocate_page a pid).1
allocate_page-IsValid a pid valid = Allocates-IsValid valid (allocate_page-Allocates a pid valid)

pub is_free→unowned :
    (a : MemoryAllocator) (i : ℕ) → is_free a i ≡ true → get_elem? a.allocation_map i ≡ some none
is_free→unowned a i h = ground arith

pub is_free→frame :
    (a : MemoryAllocator) (i : ℕ)
    → is_free a i ≡ true
    → (f : PhysicalFrame) × (get_elem? a.frames i ≡ some f) × (is_quarantined f.status ≡ false)
is_free→frame a i h = ground arith

-- The two answers as equations, for proofs that keep `allocate_page` shut.
pub allocate_page_cases :
    (a : MemoryAllocator) (pid : ℕ)
    → IsValid a
    → ((i : ℕ) × (i < total_pages)
        × (is_free a i ≡ true)
        × NoneFree a 0 i
        × (allocate_page a pid
            ≡ (ok (some i), record a { allocation_map = set a.allocation_map i (some pid) })))
      ⊎ NoneFree a 0 total_pages × (allocate_page a pid ≡ (ok none, a))
allocate_page_cases a pid valid = split (allocate_page-Allocates a pid valid)
  where
    split :
        {r : Run (Option ℕ)}
        → Allocates a pid r
        → ((i : ℕ) × (i < total_pages)
            × (is_free a i ≡ true)
            × NoneFree a 0 i
            × (r ≡ (ok (some i), record a { allocation_map = set a.allocation_map i (some pid) })))
          ⊎ NoneFree a 0 total_pages × (r ≡ (ok none, a))
    split (given i h f n) = inl (i, h, f, n, refl)
    split (exhausted n) = inr (n, refl)

-- On a valid allocator, freeing the frame that was just allocated gives back the allocator as it was before.
pub deallocate_page-allocate_page :
    (a : MemoryAllocator) (pid i : ℕ) {a' : MemoryAllocator}
    → IsValid a
    → allocate_page a pid ≡ (ok (some i), a')
    → deallocate_page a' i ≡ (ok tt, a)
unfolding deallocate_page
deallocate_page-allocate_page a pid i {a'} valid e = back (allocate_page-Allocates a pid valid) e
  where
    back :
        {r : Run (Option ℕ)}
        → Allocates a pid r
        → r ≡ (ok (some i), a')
        → deallocate_page a' i ≡ (ok tt, a)
    back (given k h f n) q = ground (
      arith,
      valid.map_full,
      length-set a.allocation_map k (some pid),
      set_back a.allocation_map k (some pid) none (is_free→unowned a k f),
    )
    back (exhausted n) q = ground arith
