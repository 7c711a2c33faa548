-- ===== src/Ecc.antt =====
-- memory-subsystem/src/ecc.rs: the SECDED (13,8) code of one byte in a `u16`.
mod Tables
pub mod Correct
use Prim.Native.Nat.{bit_and, bit_or, bit_xor}
use package.rustix_os.Prelude.{ℕ, ◌+◌, ◌-◌, ◌*◌, ◌%◌, ◌^◌, Bool, ◌==◌, leb, if◌then◌else◌}
use package.rustix_os.Prelude.Words.{shr, shl16, bit, count_ones16}

pub data DecodeResult : Type 0 where
  no_error : ℕ → DecodeResult
  corrected : ℕ → ℕ → DecodeResult
  uncorrectable : DecodeResult

-- `a ^ b ^ …`, associated to the left as the source reads.
infixl 55 ◌xor◌
abbrev ◌xor◌ : ℕ → ℕ → ℕ
a xor b = bit_xor a b

infixl 54 ◌or◌
abbrev ◌or◌ : ℕ → ℕ → ℕ
a or b = bit_or a b

unfoldable pub encode : ℕ → ℕ
unfolding count_ones16
encode d =
    let d0 = bit d 0 in
    let d1 = bit d 1 in
    let d2 = bit d 2 in
    let d3 = bit d 3 in
    let d4 = bit d 4 in
    let d5 = bit d 5 in
    let d6 = bit d 6 in
    let d7 = bit d 7 in
    let p1 = d0 xor d1 xor d3 xor d4 xor d6 in
    let p2 = d0 xor d2 xor d3 xor d5 xor d6 in
    let p3 = d1 xor d2 xor d3 xor d7 in
    let p4 = d4 xor d5 xor d6 xor d7 in
    let word =
      p1
      or shl16 p2 1
      or shl16 d0 2
      or shl16 p3 3
      or shl16 d1 4
      or shl16 d2 5
      or shl16 d3 6
      or shl16 p4 7
      or shl16 d4 8
      or shl16 d5 9
      or shl16 d6 10
      or shl16 d7 11 in
    let p5 = bit_and (count_ones16 word) 1 in word or shl16 p5 12

unfoldable pub extract_data : ℕ → ℕ
extract_data w =
    (bit w 2
      or shl16 (bit w 4) 1
      or shl16 (bit w 5) 2
      or shl16 (bit w 6) 3
      or shl16 (bit w 8) 4
      or shl16 (bit w 9) 5
      or shl16 (bit w 10) 6
      or shl16 (bit w 11) 7)
    % 2 ^ 8

-- The four checks of `decode`, as one number.
unfoldable pub syndrome : ℕ → ℕ
syndrome w =
    let b1 = bit w 0 in
    let b2 = bit w 1 in
    let b3 = bit w 2 in
    let b4 = bit w 3 in
    let b5 = bit w 4 in
    let b6 = bit w 5 in
    let b7 = bit w 6 in
    let b8 = bit w 7 in
    let b9 = bit w 8 in
    let b10 = bit w 9 in
    let b11 = bit w 10 in
    let b12 = bit w 11 in
    let s1 = b1 xor b3 xor b5 xor b7 xor b9 xor b11 in
    let s2 = b2 xor b3 xor b6 xor b7 xor b10 xor b11 in
    let s3 = b4 xor b5 xor b6 xor b7 xor b12 in
    let s4 = b8 xor b9 xor b10 xor b11 xor b12 in s1 or shl16 s2 1 or shl16 s3 2 or shl16 s4 3

-- `total_parity_violation`: all sixteen bits of the word count.
unfoldable pub odd_ones : ℕ → Bool
unfolding count_ones16
odd_ones w = bit_and (count_ones16 w) 1 == 1

unfoldable pub decode : ℕ → DecodeResult
decode w =
    let s = syndrome w in
    if odd_ones w
    then if s == 0
      then corrected (extract_data w) 13
      else if leb s 12
      then corrected (extract_data (w xor shl16 1 (s - 1))) s
      else uncorrectable
    else if s == 0
    then no_error (extract_data w)
    else uncorrectable
