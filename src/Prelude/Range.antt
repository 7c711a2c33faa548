-- ===== src/Prelude/Range.antt =====
-- Writing a run of places of a vector, one after the other.
use Prim.Native.Nat.{ℕ, zero, suc, ◌+◌, ◌≤◌, ◌<◌}
use mathlib.Core.Path.{◌≡◌, refl, ap, ◌∙◌}
use mathlib.Core.Logic.{inl, inr}
use mathlib.Core.Bool.{◌&&◌}
use mathlib.Core.List.{List, [], ◌∷◌, ◌++◌}
use native.Mathlib.Omega.{arith}
use rustix_os.Prelude.Tests.{ltb, leb, ◌==◌, if◌then◌else◌, Bool-cases}
use rustix_os.Prelude.Lists.{length, get_or, set, take, length-set, get_or-set_self, get_or-set_ne}

module _ {ℓ} {A : Type ℓ} (value : ℕ → A) where
  -- The `left` places from `o` on get their `value`.
  unfoldable pub set_range : ℕ → ℕ → List A → List A
  set_range zero o xs = xs
  set_range (suc left) o xs = set_range left (o + 1) (set xs o (value o))

  pub length-set_range : (left o : ℕ) (xs : List A) → length (set_range left o xs) ≡ length xs
  unfolding set_range
  length-set_range zero o xs = refl
  length-set_range (suc left) o xs = length-set_range left (o + 1) _ ∙ length-set xs o _

  pub get_or-set_range :
      (left o i : ℕ) (xs : List A) (d : A)
      → o + left ≤ length xs
      → get_or (set_range left o xs) i d
        ≡ (if leb o i && ltb i (o + left) then value i else get_or xs i d)
  unfolding set_range
  get_or-set_range zero o i xs d h = ground arith
  get_or-set_range (suc left) o i xs d h =
      get_or-set_range left (o + 1) i (set xs o (value o)) d
        (omega (arith, length-set xs o (value o)))
      ∙ elim (Bool-cases (o == i)) [
        | inl e ↦
            let p : o ≡ i = ground arith in
            rw (← p) (rw (get_or-set_self xs o (value o) d (omega arith)) (ground arith))
        | inr e ↦ rw (get_or-set_ne xs o i (value o) d (ground arith)) (ground arith)
      ]

module _ {ℓ} {A : Type ℓ} where
  pub take-suc :
      (k : ℕ) (xs : List A) (d : A)
      → k < length xs
      → take (k + 1) xs ≡ take k xs ++ (get_or xs k d ∷ [])
  take-suc k [] d h = absurd (omega arith)
  take-suc zero (x ∷ xs) d h = refl
  take-suc (suc k) (x ∷ xs) d h =
      ap (λ (n : ℕ). take n (x ∷ xs)) (let e : suc k + 1 ≡ suc (k + 1) = omega arith in e)
      ∙ ap (λ t. x ∷ t) (take-suc k xs d (omega arith))

  pub take_all : (xs : List A) → take (length xs) xs ≡ xs
  take_all [] = refl
  take_all (x ∷ xs) = ap (λ t. x ∷ t) (take_all xs)
