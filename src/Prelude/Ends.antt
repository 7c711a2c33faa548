-- ===== src/Prelude/Ends.antt =====
-- What stands at and beyond the end of a list.
use Prim.Native.Nat.{ℕ, zero, suc, ◌≤◌, ◌<◌}
use mathlib.Core.Path.{◌≡◌, refl, ap}
use mathlib.Core.Logic.{◌≢◌}
use mathlib.Core.Option.{none, some}
use mathlib.Core.List.{List, [], ◌∷◌, ◌++◌}
use native.Mathlib.Omega.{arith}
use package.rustix_os.Prelude.Lists.{length, get_elem?, replicate}

module _ {ℓ} {A : Type ℓ} where
  pub get_elem?-end : (q : List A) (i : ℕ) → length q ≤ i → get_elem? q i ≡ none
  get_elem?-end [] i h = refl
  get_elem?-end (x ∷ q) zero h = absurd (omega arith)
  get_elem?-end (x ∷ q) (suc i) h = get_elem?-end q i (omega arith)

  pub get_elem?-append_last : (q : List A) (x : A) → get_elem? (q ++ x ∷ []) (length q) ≡ some x
  get_elem?-append_last [] x = refl
  get_elem?-append_last (y ∷ q) x = get_elem?-append_last q x

  pub get_elem?-append_ne :
      (q : List A) (x : A) (i : ℕ) → i ≢ length q → get_elem? (q ++ x ∷ []) i ≡ get_elem? q i
  get_elem?-append_ne [] x zero h = absurd (h refl)
  get_elem?-append_ne [] x (suc i) h = refl
  get_elem?-append_ne (y ∷ q) x zero h = refl
  get_elem?-append_ne (y ∷ q) x (suc i) h = get_elem?-append_ne q x i (λ e. h (ap suc e))

  pub get_elem?-replicate : (n : ℕ) (x : A) (i : ℕ) → i < n → get_elem? (replicate n x) i ≡ some x
  get_elem?-replicate zero x i h = absurd (omega arith)
  get_elem?-replicate (suc n) x zero h = refl
  get_elem?-replicate (suc n) x (suc i) h = get_elem?-replicate n x i (omega arith)
