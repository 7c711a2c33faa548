-- ===== src/Syscall/Transfer/Splice.antt =====
-- What a write call makes of the contents of a file.
use mathlib.Core.List.{◌++◌}
use rustix_os.Prelude.{
  ℕ, zero, suc, ◌+◌, ◌-◌, ◌≤◌, ◌≡◌, ◌∙◌, refl, sym, ap, arith, true, false, Bool-cases, inl, inr,
  leb, ltb, ◌&&◌, if◌then◌else◌, List, [], ◌∷◌, length, get_or, take, drop, replicate,
  length-append, length-take, length-drop, length-replicate,
}
use Prim.Native.Nat.{max}
use rustix_os.Syscall.Transfer.{splice}

get_or-append :
    (xs ys : List ℕ) (i : ℕ)
    → get_or (xs ++ ys) i 0
      ≡ (if ltb i (length xs) then get_or xs i 0 else get_or ys (i - length xs) 0)
get_or-append [] ys i = ground arith
get_or-append (x ∷ xs) ys zero = ground arith
get_or-append (x ∷ xs) ys (suc i) = get_or-append xs ys i ∙ ground arith

get_or-take :
    (n : ℕ) (xs : List ℕ) (i : ℕ) → get_or (take n xs) i 0 ≡ (if ltb i n then get_or xs i 0 else 0)
get_or-take zero xs i = ground arith
get_or-take (suc n) [] i = ground arith
get_or-take (suc n) (x ∷ xs) zero = ground arith
get_or-take (suc n) (x ∷ xs) (suc i) = get_or-take n xs i ∙ ground arith

get_or-drop : (n : ℕ) (xs : List ℕ) (i : ℕ) → get_or (drop n xs) i 0 ≡ get_or xs (n + i) 0
get_or-drop zero xs i = ap (λ (t : ℕ). get_or xs t 0) (omega arith)
get_or-drop (suc n) [] i = ground arith
get_or-drop (suc n) (x ∷ xs) i = get_or-drop n xs i ∙ ground arith

get_or-zeros : (n i : ℕ) → get_or (replicate {A = ℕ} n 0) i 0 ≡ 0
get_or-zeros zero i = refl
get_or-zeros (suc n) zero = refl
get_or-zeros (suc n) (suc i) = get_or-zeros n i

get_or-past : (xs : List ℕ) (i : ℕ) → length xs ≤ i → get_or xs i 0 ≡ 0
get_or-past [] i h = refl
get_or-past (x ∷ xs) zero h = absurd (omega arith)
get_or-past (x ∷ xs) (suc i) h = get_or-past xs i (omega arith)

-- Zeros behind the contents are what is read there anyway.
get_or-padded :
    (contents : List ℕ) (n i : ℕ) → get_or (contents ++ replicate n 0) i 0 ≡ get_or contents i 0
get_or-padded contents n i = elim (Bool-cases (ltb i (length contents))) [
  | inl e ↦ get_or-append contents (replicate n 0) i ∙ rw e refl
  | inr e ↦
      get_or-append contents (replicate n 0) i
      ∙ rw e (get_or-zeros n (i - length contents) ∙ sym (get_or-past contents i (ground arith)))
]

module _ (contents : List ℕ) (offset : ℕ) (slice : List ℕ) where
  abbrev full : List ℕ
  full = contents ++ replicate (offset + length slice - length contents) 0

  length-full : length full ≡ length contents + (offset + length slice - length contents)
  length-full =
      length-append contents (replicate (offset + length slice - length contents) 0)
      ∙ ap (λ (t : ℕ). length contents + t)
          (length-replicate {A = ℕ} (offset + length slice - length contents) 0)

  length-front : length (take offset full) ≡ offset
  length-front = length-take offset full ∙ omega (arith, length-full)

  get_or-full : (i : ℕ) → get_or full i 0 ≡ get_or contents i 0
  get_or-full = get_or-padded contents (offset + length slice - length contents)

  before :
      (i : ℕ)
      → ltb i offset ≡ true
      → get_or (splice contents offset slice) i 0 ≡ get_or contents i 0
  unfolding splice
  before i h =
      get_or-append (take offset full) (slice ++ drop (offset + length slice) full) i
      ∙ rw (length-front, h) (get_or-take offset full i ∙ rw h (get_or-full i))

  behind :
      (i : ℕ)
      → ltb i offset ≡ false
      → get_or (splice contents offset slice) i 0
        ≡ get_or (slice ++ drop (offset + length slice) full) (i - offset) 0
  unfolding splice
  behind i h =
      get_or-append (take offset full) (slice ++ drop (offset + length slice) full) i
      ∙ rw (length-front, h) refl

  past :
      (i : ℕ)
      → ltb i offset ≡ false
      → ltb (i - offset) (length slice) ≡ false
      → get_or (splice contents offset slice) i 0 ≡ get_or contents i 0
  past i h k =
      behind i h
      ∙ get_or-append slice (drop (offset + length slice) full) (i - offset)
      ∙ rw k (
          get_or-drop (offset + length slice) full (i - offset - length slice)
          ∙ ap (λ (t : ℕ). get_or full t 0) (ground arith)
          ∙ get_or-full i)

  -- A write of `slice` at `offset` puts it there, and keeps every other byte; a byte past the end
  -- counts as 0, so that a gap is filled with zeros.
  pub get_or-splice :
      (i : ℕ)
      → get_or (splice contents offset slice) i 0 ≡ (
          if leb offset i && ltb i (offset + length slice)
          then get_or slice (i - offset) 0
          else get_or contents i 0)
  get_or-splice i = elim (Bool-cases (ltb i offset)) [
    | inl h ↦ before i h ∙ ground (arith, h)
    | inr h ↦ elim (Bool-cases (ltb (i - offset) (length slice))) [
      | inl k ↦
          behind i h
          ∙ get_or-append slice (drop (offset + length slice) full) (i - offset)
          ∙ rw k (ground (arith, h, k))
      | inr k ↦ past i h k ∙ ground (arith, h, k)
    ]
  ]

  -- The file grows to hold the slice, and never shrinks.
  pub length-splice :
      length (splice contents offset slice) ≡ max (length contents) (offset + length slice)
  unfolding splice
  length-splice =
      length-append (take offset full) (slice ++ drop (offset + length slice) full)
      ∙ rw
          (
            length-front,
            length-append slice (drop (offset + length slice) full),
            length-drop (offset + length slice) full,
          )
          (omega (arith, length-full))
