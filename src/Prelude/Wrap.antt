-- ===== src/Prelude/Wrap.antt =====
-- Indices that go round at `n`.
use Prim.Native.Nat.{ℕ, suc, ◌+◌, ◌-◌, ◌%◌, ◌≤◌, ◌<◌}
use mathlib.Core.Path.{◌≡◌, ap}
use mathlib.Core.Logic.{◌≢◌, ◌↔◌, ◌⊎◌, inl, inr}
use native.Mathlib.Decide.{dec_lt}
use native.Mathlib.Nat.{mod-eq_of_lt, mod-eq-sub-mod, mod-add-mod}
use native.Mathlib.Omega.{arith}

-- An index that runs at most one round ahead.
pub wrap :
    (n t i : ℕ)
    → t < n
    → i ≤ n
    → (((t + i) % n ≡ t + i) × (t + i < n)) ⊎ (((t + i) % n ≡ t + i - n) × (n ≤ t + i))
wrap n t i ht hi = elim (dec_lt (t + i) n) [
  | yes p ↦ inl (mod-eq_of_lt p, p)
  | no p ↦ inr (
    omega (
      arith,
      mod-eq-sub-mod {n = t + i} {m = n} (omega arith),
      mod-eq_of_lt {n = t + i - n} {m = n} (omega arith),
    ),
    omega arith,
  )
]

pub wrap_lt : (n t i : ℕ) → t < n → i ≤ n → (t + i) % n < n
wrap_lt n t i ht hi = ground (arith, wrap n t i ht hi)

pub wrap_ne : (n t i j : ℕ) → t < n → i < n → j < n → i ≢ j → (t + i) % n ≢ (t + j) % n
wrap_ne n t i j ht hi hj ne =
    ground (arith, wrap n t i ht (omega arith), wrap n t j ht (omega arith))

pub wrap_room : (n t l : ℕ) → t < n → l < n → (((t + l) % n + 1) % n ≡ t) ↔ (n ≤ l + 1)
wrap_room n t l ht hl =
    let a = wrap n t l ht (omega arith) in
    let b = wrap n ((t + l) % n) 1 (wrap_lt n t l ht (omega arith)) (omega arith) in
    ground (arith, a, b)

pub wrap_next : (n t i : ℕ) → ((t + 1) % n + i) % n ≡ (t + suc i) % n
wrap_next n t i = rw mod-add-mod (ap (λ k. k % n) (omega arith))
