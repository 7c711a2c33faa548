-- ===== src/Ecc/Correct.antt =====
-- What the SECDED code detects and corrects, for every byte and every flip of one or two bits.
use Prim.Native.Nat.{bit_xor}
use rustix_os.Prelude.{ℕ, ◌+◌, ◌^◌, ◌<◌, min, ◌≡◌, if◌then◌else◌, ltb, arith}
use rustix_os.Prelude.Words.{all_below_lem}
use rustix_os.Ecc.{no_error, corrected, uncorrectable, encode, decode}
use rustix_os.Ecc.Tables.{same→≡, clean, single, double}

-- The word of a byte, with no bit changed, decodes to that byte without an error.
pub decode-encode : (d : ℕ) → d < 256 → decode (encode d) ≡ no_error d
decode-encode d h = same→≡ _ _ (all_below_lem 256 _ d clean h)

-- In the word of a byte, one flipped bit, at any of the sixteen bits of the stored word, is corrected: the byte comes back
-- with the flipped position, counted from 1, where the positions above the parity bit report 13.
pub decode-flip :
    (d i : ℕ)
    → d < 256
    → i < 16
    → decode (bit_xor (encode d) (2 ^ i)) ≡ corrected d (min (i + 1) 13)
decode-flip d i hd hi = same→≡ _ _ (all_below_lem 16 _ i (all_below_lem 256 _ d single hd) hi)

-- Two flipped bits in the word of a byte never give a wrong byte: if one of them is among the twelve bits of the Hamming
-- code the word is reported uncorrectable, and else the byte comes back as it was.
pub decode-flip_twice :
    (d i j : ℕ)
    → d < 256
    → i < 16
    → j < i
    → decode (bit_xor (bit_xor (encode d) (2 ^ i)) (2 ^ j))
      ≡ (if ltb j 12 then uncorrectable else no_error d)
decode-flip_twice d i j hd hi hj =
    let e =
      same→≡ _ _
        (all_below_lem i _ j (all_below_lem 16 _ i (all_below_lem 256 _ d double hd) hi) hj) in
    ground (arith, e)
