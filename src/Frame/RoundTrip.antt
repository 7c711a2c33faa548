-- ===== src/Frame/RoundTrip.antt =====
-- A byte that was written is read back, after a flipped bit too; two flipped bits raise a fault.
use Prim.Native.Nat.{bit_xor}
use rustix_os.Prelude.{
  ℕ, ◌+◌, ◌^◌, ◌<◌, ◌≤◌, ◌≡◌, refl, ◌∙◌, ap, inl, inr, Bool-cases, leb, true, false, ltb, arith,
  none, some, min, ◌==◌, ==_iff, List, set, get_or, length-set, get_or-set_self, set-set, set_same,
  if◌then◌else◌,
}
use rustix_os.Prelude.Words.{shl16, all_below, all_below_lem}
use mathlib.Core.Path.{ap₂}
use rustix_os.Outcome.{ok, err}
use rustix_os.Ecc.{no_error, uncorrectable, encode, decode}
use rustix_os.Ecc.Correct.{decode-encode, decode-flip, decode-flip_twice}
use rustix_os.Frame.{
  PhysicalFrame, PageStatus, healthy, recovered, quarantined, is_quarantined, page_size,
  note_correction, take_decoded, ReadResult, read_byte, write_byte, flip_bit,
}
use rustix_os.Frame.Health.{IsValid}

-- The frame that a successful write leaves.
abbrev pub written : PhysicalFrame → ℕ → ℕ → PhysicalFrame
written f o v = record f { words = set f.words o (encode v) }

pub write_byte_lem :
    (f : PhysicalFrame) (o v : ℕ)
    → is_quarantined f.status ≡ false
    → o < page_size
    → write_byte f o v ≡ (ok tt, written f o v)
unfolding write_byte
write_byte_lem f o v q h = rw q (ground arith)

-- A read in range is decided by what the word decodes to.
pub read_byte_lem :
    (f : PhysicalFrame) (o : ℕ)
    → o < page_size
    → read_byte f o ≡ take_decoded f o (decode (get_or f.words o 0))
unfolding read_byte
read_byte_lem f o h = ground arith

-- On a valid frame that is not quarantined, a byte written in range is what a read of its place returns,
-- with no correction and no change to the frame.
pub read_byte-write_byte :
    (f : PhysicalFrame) (o v : ℕ)
    → IsValid f
    → is_quarantined f.status ≡ false
    → o < page_size
    → v < 256
    → read_byte (write_byte f o v).1 o ≡ (ok (v, none), (write_byte f o v).1)
read_byte-write_byte f o v valid q ho hv =
    rw (write_byte_lem, q, ho)
      (read_byte_lem _ o ho
        ∙ ap (take_decoded (written f o v) o) (
            ap decode (get_or-set_self f.words o (encode v) 0 (rw valid.full ho))
            ∙ decode-encode v hv))

shl16_table : all_below 16 (λ i. shl16 1 i == 2 ^ i) ≡ true
unfolding all_below
shl16_table = refl

pub shl16-one : (i : ℕ) → i < 16 → shl16 1 i ≡ 2 ^ i
shl16-one i h = (==_iff _ _).0 (all_below_lem 16 _ i shl16_table h)

pub word-flip_bit :
    (f : PhysicalFrame) (o i : ℕ)
    → IsValid f
    → o < page_size
    → get_or (flip_bit f o i).words o 0 ≡ bit_xor (get_or f.words o 0) (shl16 1 i)
unfolding flip_bit
word-flip_bit f o i valid ho = get_or-set_self f.words o _ 0 (rw valid.full ho)

-- How one corrected flip changes the health of a page.
pub data Counts : PageStatus → PageStatus → Type 0 where
  first : Counts healthy (recovered 1)
  one_more : (n : ℕ) → n + 1 < 5 → Counts (recovered n) (recovered (n + 1))
  fifth : (n : ℕ) → 5 ≤ n + 1 → Counts (recovered n) quarantined
  spent : Counts quarantined quarantined

note_correction-Counts : (s : PageStatus) → Counts s (note_correction s)
unfolding note_correction
note_correction-Counts healthy = first
note_correction-Counts (recovered n) = elim (Bool-cases (leb 5 (n + 1))) [
  | inl e ↦ rw e (fifth n (ground arith))
  | inr e ↦ rw e (one_more n (ground arith))
]
note_correction-Counts quarantined = spent

read_flipped :
    (f : PhysicalFrame) (o v i : ℕ)
    → IsValid f
    → o < page_size
    → v < 256
    → i < 16
    → get_or f.words o 0 ≡ encode v
    → read_byte (flip_bit f o i) o ≡ (
      ok (v, some (record { frame_index = f.index; offset = o; bit_position = min (i + 1) 13 })),
      record f { words = f.words; status = note_correction f.status },
    )
unfolding flip_bit
read_flipped f o v i valid ho hv hi e =
    read_byte_lem _ o ho
    ∙ ap (take_decoded (flip_bit f o i) o)
        (ap decode (word-flip_bit f o i valid ho ∙ rw (e, shl16-one, hi)) ∙ decode-flip v i hv hi)
    ∙ ap (λ (t : List ℕ). restored t)
        (set-set f.words o _ (encode v) ∙ set_same f.words o (encode v) 0 e (rw valid.full ho))
  where
    restored : List ℕ → ReadResult × PhysicalFrame
    restored t = (
      ok (v, some (record { frame_index = f.index; offset = o; bit_position = min (i + 1) 13 })),
      record f { words = t; status = note_correction f.status },
    )

-- One bit flips in a word of a valid frame that holds an encoded byte: the read returns the byte,
-- writes the right word back, reports the flip, and counts it against the health of the page: a
-- healthy page has one corrected flip, another page one more, and at the fifth it is quarantined.
pub read_byte-flip_bit :
    (f : PhysicalFrame) (o v i : ℕ)
    → IsValid f
    → o < page_size
    → v < 256
    → i < 16
    → get_or f.words o 0 ≡ encode v
    → (s : PageStatus) × Counts f.status s
      × (read_byte (flip_bit f o i) o ≡ (
        ok (v, some (record { frame_index = f.index; offset = o; bit_position = min (i + 1) 13 })),
        record f { words = f.words; status = s },
      ))
read_byte-flip_bit f o v i valid ho hv hi e = (
  note_correction f.status,
  note_correction-Counts f.status,
  read_flipped f o v i valid ho hv hi e,
)

-- Two bits flip in a word of a valid frame that holds an encoded byte, the lower of them among the
-- twelve of the Hamming code: the read
-- raises a fault that names the frame, keeps its words, and quarantines it.
pub read_byte-flip_bit_twice :
    (f : PhysicalFrame) (o v i j : ℕ)
    → IsValid f
    → o < page_size
    → v < 256
    → i < 16
    → j < i
    → j < 12
    → get_or f.words o 0 ≡ encode v
    → read_byte (flip_bit (flip_bit f o i) o j) o
      ≡ (err f.index, record (flip_bit (flip_bit f o i) o j) { status = quarantined })
unfolding flip_bit
read_byte-flip_bit_twice f o v i j valid ho hv hi hj low e =
    read_byte_lem _ o ho
    ∙ ap (take_decoded (flip_bit (flip_bit f o i) o j) o)
        (ap decode twice ∙ decode-flip_twice v i j hv hi hj ∙ low_case)
  where
    low_case : (if ltb j 12 then uncorrectable else no_error v) ≡ uncorrectable
    low_case = ground (arith, low)

    twice :
        get_or (flip_bit (flip_bit f o i) o j).words o 0
        ≡ bit_xor (bit_xor (encode v) (2 ^ i)) (2 ^ j)
    twice =
        word-flip_bit (flip_bit f o i) o j
          (record { full = length-set f.words o _ ∙ valid.full; health = valid.health }) ho
        ∙ ap₂ bit_xor (word-flip_bit f o i valid ho ∙ ap₂ bit_xor e (shl16-one i hi))
            (shl16-one j (omega arith))
