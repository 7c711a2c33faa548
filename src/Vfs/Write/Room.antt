-- ===== src/Vfs/Write/Room.antt =====
-- Which frames are free while the blocks of a file are given back and taken: `free_blocks` and the
-- loop of `write_file`.
use rustix_os.Prelude.{
  ℕ, ◌≡◌, refl, ◌⊎◌, inl, inr, true, false, arith, ℕ_discrete, none, some, List, [], ◌∷◌, ◌++◌,
  get_elem?, set, get_elem?-set_self, get_elem?-set_ne, lt-of_get_elem?,
}
use rustix_os.Frame.{PhysicalFrame, is_quarantined}
use rustix_os.Allocator.{MemoryAllocator}
use rustix_os.Allocator.Invariant.{IsValid}
use rustix_os.Allocator.Free.{is_free, is_free→unowned}

abbrev pub Listed : ℕ → List ℕ → Type 0
Listed j [] = ⊥
Listed j (b ∷ bs) = (b ≡ j) ⊎ Listed j bs

Listed-left : (j : ℕ) (xs ys : List ℕ) → Listed j xs → Listed j (xs ++ ys)
Listed-left j [] ys h = absurd h
Listed-left j (x ∷ xs) ys (inl e) = inl e
Listed-left j (x ∷ xs) ys (inr h) = inr (Listed-left j xs ys h)

Listed-last : (j : ℕ) (xs : List ℕ) → Listed j (xs ++ j ∷ [])
Listed-last j [] = inl refl
Listed-last j (x ∷ xs) = inr (Listed-last j xs)

-- A frame that is not quarantined.
abbrev pub IsUsable : MemoryAllocator → ℕ → Type 0
IsUsable a j =
    (f : PhysicalFrame) × (get_elem? a.frames j ≡ some f) × (is_quarantined f.status ≡ false)

abbrev pub disowned : MemoryAllocator → ℕ → MemoryAllocator
disowned a b = record a { allocation_map = set a.allocation_map b none }

pub is_free-disowned :
    (a : MemoryAllocator) (b j : ℕ) → is_free a j ≡ true → is_free (disowned a b) j ≡ true
is_free-disowned a b j h = elim (ℕ_discrete b j) [
  | yes e ↦
      let unowned = is_free→unowned a j h in
      let self =
        get_elem?-set_self a.allocation_map j none (lt-of_get_elem? a.allocation_map j unowned) in
      rw e (ground (arith, h, unowned, self))
  | no ne ↦ ground (arith, h, get_elem?-set_ne a.allocation_map {i = b} {j = j} none ne)
]

pub is_free-disowned_self :
    (a : MemoryAllocator) (b : ℕ) → IsValid a → IsUsable a b → is_free (disowned a b) b ≡ true
is_free-disowned_self a b valid (f, hf, q) =
    let lt = lt-of_get_elem? a.frames b hf in
    let self =
      get_elem?-set_self a.allocation_map b none
        (omega (arith, lt, valid.map_full, valid.frames_full)) in
    ground (arith, hf, q, self)

-- Every frame that was free at the start is still free, or among the blocks.
abbrev pub Accounted : MemoryAllocator → MemoryAllocator → List ℕ → Type 0
Accounted start a blocks = (j : ℕ) → is_free start j ≡ true → (is_free a j ≡ true) ⊎ Listed j blocks

pub Accounted-stored :
    (start a : MemoryAllocator) (blocks : List ℕ) (pid n : ℕ) (g : PhysicalFrame)
    → Accounted start a blocks
    → Accounted start
        (record { frames = set a.frames n g; allocation_map = set a.allocation_map n (some pid) })
        (blocks ++ n ∷ [])
Accounted-stored start a blocks pid n g h j free = elim (ℕ_discrete n j) [
  | yes e ↦ rw (← e) (inr (Listed-last n blocks))
  | no ne ↦ elim (h j free) [
    | inr listed ↦ inr (Listed-left j blocks (n ∷ []) listed)
    | inl still ↦ inl (
        ground (
          arith,
          still,
          get_elem?-set_ne a.allocation_map {i = n} {j = j} (some pid) ne,
          get_elem?-set_ne a.frames {i = n} {j = j} g ne,
        ))
  ]
]
