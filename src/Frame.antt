-- ===== src/Frame.antt =====
-- memory-subsystem/src/allocator.rs, `PhysicalFrame`: a page of 64 SECDED words and its health.
pub mod Health
pub mod RoundTrip
use Prim.Native.Nat.{bit_xor}
use package.rustix_os.Prelude.{
  ℕ, ◌+◌, Bool, true, false, leb, if◌then◌else◌, Option, none, some, List, replicate, get_or, set,
}
use package.rustix_os.Prelude.Words.{shl16}
use package.rustix_os.Outcome.{Outcome, ok, err, Error, write_quarantined, write_out_of_bounds}
use package.rustix_os.Ecc.{DecodeResult, no_error, corrected, uncorrectable, encode, decode}

abbrev pub page_size : ℕ
page_size = 64

pub record CorrectionEvent : Type 0 where
  pub frame_index : ℕ
  pub offset : ℕ
  pub bit_position : ℕ

pub data PageStatus : Type 0 where
  healthy : PageStatus
  recovered : ℕ → PageStatus
  quarantined : PageStatus

-- `status == PageStatus::Quarantined`.
abbrev pub is_quarantined : PageStatus → Bool
is_quarantined healthy = false
is_quarantined (recovered n) = false
is_quarantined quarantined = true

-- `words` is the field `data`, an array of `page_size` words.
pub record PhysicalFrame : Type 0 where
  pub index : ℕ
  pub physical_address : ℕ
  pub words : List ℕ
  pub status : PageStatus

unfoldable pub new : ℕ → ℕ → PhysicalFrame
new index address = record {
  index = index;
  physical_address = address;
  words = replicate page_size 0;
  status = healthy;
}

unfoldable pub write_byte : PhysicalFrame → ℕ → ℕ → Outcome (Unit {0}) Error × PhysicalFrame
write_byte f offset value =
    if is_quarantined f.status
    then (err write_quarantined, f)
    else if leb page_size offset
    then (err write_out_of_bounds, f)
    else (ok tt, record f { words = set f.words offset (encode value) })

-- The health of a page after one more corrected flip.
unfoldable pub note_correction : PageStatus → PageStatus
note_correction healthy = recovered 1
note_correction (recovered n) = if leb 5 (n + 1) then quarantined else recovered (n + 1)
note_correction quarantined = quarantined

abbrev pub ReadResult : Type 0
ReadResult = Outcome (ℕ × Option CorrectionEvent) ℕ

-- What `read_byte` does with the decoded word.
abbrev pub take_decoded : PhysicalFrame → ℕ → DecodeResult → ReadResult × PhysicalFrame
take_decoded f offset (no_error value) = (ok (value, none), f)
take_decoded f offset (corrected value position) = (
  ok (value, some (record { frame_index = f.index; offset = offset; bit_position = position })),
  record f { words = set f.words offset (encode value); status = note_correction f.status },
)
take_decoded f offset uncorrectable = (err f.index, record f { status = quarantined })

-- The read of the array is in range: its length is `page_size`.
unfoldable pub read_byte : PhysicalFrame → ℕ → ReadResult × PhysicalFrame
read_byte f offset =
    if leb page_size offset
    then (err f.index, f)
    else take_decoded f offset (decode (get_or f.words offset 0))

-- `data[offset] ^= 1 << bit_index`, the change that `inject_bit_flip` makes.
unfoldable pub flip_bit : PhysicalFrame → ℕ → ℕ → PhysicalFrame
flip_bit f offset i = record f {
  words = set f.words offset (bit_xor (get_or f.words offset 0) (shl16 1 i));
}
