-- ===== src/Ecc/Tables.antt =====
-- Every byte of the SECDED code with every flip of at most two bits, by evaluation.
use Prim.Native.Nat.{bit_xor}
use rustix_os.Prelude.{
  ℕ, ◌+◌, ◌^◌, Bool, true, false, ◌&&◌, ◌==◌, leb, if◌then◌else◌, min, ◌≡◌, refl, arith,
}
use rustix_os.Prelude.Words.{all_below}
use rustix_os.Ecc.{
  DecodeResult, no_error, corrected, uncorrectable, encode, decode, extract_data, syndrome,
  odd_ones,
}

pub same : DecodeResult → DecodeResult → Bool
same (no_error a) (no_error b) = a == b
same (corrected a p) (corrected b q) = (a == b) && (p == q)
same uncorrectable uncorrectable = true
same _ _ = false

pub same→≡ : (r s : DecodeResult) → same r s ≡ true → r ≡ s
unfolding same
same→≡ (no_error a) (no_error b) h = ground arith
same→≡ (corrected a p) (corrected b q) h = ground arith
same→≡ uncorrectable uncorrectable h = refl
same→≡ r s h = ground arith

pub clean : all_below 256 (λ d. same (decode (encode d)) (no_error d)) ≡ true
unfolding all_below decode encode extract_data syndrome odd_ones same
clean = refl

pub single :
    all_below 256 (λ d.
      all_below 16 (λ i. same (decode (bit_xor (encode d) (2 ^ i))) (corrected d (min (i + 1) 13))))
    ≡ true
unfolding all_below decode encode extract_data syndrome odd_ones same
single = refl

-- What `decode` makes of two flips at `j < i`: the bits above the parity bit carry no check.
abbrev pub after_two : ℕ → ℕ → DecodeResult
after_two d j = if leb 12 j then no_error d else uncorrectable

pub double :
    all_below 256 (λ d. all_below 16 (λ i.
      all_below i
        (λ j. same (decode (bit_xor (bit_xor (encode d) (2 ^ i)) (2 ^ j))) (after_two d j))))
    ≡ true
unfolding all_below decode encode extract_data syndrome odd_ones same
double = refl
