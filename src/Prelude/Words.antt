-- ===== src/Prelude/Words.antt =====
-- Machine words as native numbers: shifts, single bits, the number of ones, and statements over a
-- whole byte checked by evaluation.
use Prim.Native.Nat.{ℕ, zero, suc, ◌+◌, ◌*◌, ◌/◌, ◌%◌, ◌^◌, ◌<◌, bit_and}
use mathlib.Core.Path.{◌≡◌}
use mathlib.Core.Bool.{Bool, true, ◌&&◌}
use native.Mathlib.Omega.{arith}

-- `x >> k`.
abbrev pub shr : ℕ → ℕ → ℕ
shr x k = x / 2 ^ k

-- `x << k` on a `u16`: what leaves the word is lost.
abbrev pub shl16 : ℕ → ℕ → ℕ
shl16 x k = x * 2 ^ k % 2 ^ 16

-- `(x >> k) & 1`.
abbrev pub bit : ℕ → ℕ → ℕ
bit x k = bit_and (shr x k) 1

-- The ones among the lowest `n` bits.
unfoldable pub ones : ℕ → ℕ → ℕ
ones zero x = 0
ones (suc n) x = x % 2 + ones n (x / 2)

-- `count_ones` of a `u16`.
unfoldable pub count_ones16 : ℕ → ℕ
unfolding ones
count_ones16 x = ones 16 x

unfoldable pub all_below : ℕ → (ℕ → Bool) → Bool
all_below zero p = true
all_below (suc n) p = p n && all_below n p

pub all_below_lem : (n : ℕ) (p : ℕ → Bool) (x : ℕ) → all_below n p ≡ true → x < n → p x ≡ true
unfolding all_below
all_below_lem zero p x h lt = absurd (omega arith)
all_below_lem (suc n) p x h lt = ground (arith, all_below_lem n p x)
