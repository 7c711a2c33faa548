-- ===== src/Frame/Health.antt =====
-- The health of a frame: what a frame always satisfies, and how its status can change.
use rustix_os.Prelude.{
  ℕ, zero, suc, ◌+◌, ◌≤◌, ◌<◌, ◌≡◌, refl, ◌∙◌, Bool-cases, inl, inr, leb, ◌==◌, arith,
  if◌then◌else◌, length, get_or, length-set, length-replicate,
}
use rustix_os.Ecc.{DecodeResult, no_error, corrected, uncorrectable, encode, decode}
use rustix_os.Frame
use rustix_os.Frame.{
  PhysicalFrame, PageStatus, healthy, recovered, quarantined, is_quarantined, page_size,
  note_correction, take_decoded, read_byte, write_byte,
}

-- A page that is still in use has seen fewer than five corrected flips.
abbrev pub StatusOk : PageStatus → Type 0
StatusOk healthy = Unit {0}
StatusOk (recovered n) = (1 ≤ n) × (n < 5)
StatusOk quarantined = Unit {0}

pub record IsValid (f : PhysicalFrame) : Type 0 where
  pub full : length f.words ≡ page_size
  pub health : StatusOk f.status

pub note_correction-StatusOk : (s : PageStatus) → StatusOk s → StatusOk (note_correction s)
unfolding note_correction
note_correction-StatusOk healthy h = omega arith
note_correction-StatusOk (recovered n) h = elim (Bool-cases (leb 5 (n + 1))) [
  | inl e ↦ rw e tt
  | inr e ↦ rw e (omega arith, ground arith)
]
note_correction-StatusOk quarantined h = tt

take_decoded-IsValid :
    (f : PhysicalFrame) (o : ℕ) (r : DecodeResult) → IsValid f → IsValid (take_decoded f o r).1
take_decoded-IsValid f o (no_error v) h = h
take_decoded-IsValid f o (corrected v p) h = record {
  full = length-set f.words o (encode v) ∙ h.full;
  health = note_correction-StatusOk f.status h.health;
}
take_decoded-IsValid f o uncorrectable h = record { full = h.full; health = tt }

-- A new frame is valid.
pub new-IsValid : (i address : ℕ) → IsValid (Frame.new i address)
unfolding Frame.new
new-IsValid i address = record { full = length-replicate {A = ℕ} page_size 0; health = tt }

-- Reading keeps a frame valid, whatever the word decodes to.
pub read_byte-IsValid : (f : PhysicalFrame) (o : ℕ) → IsValid f → IsValid (read_byte f o).1
unfolding read_byte
read_byte-IsValid f o h = elim (Bool-cases (leb page_size o)) [
  | inl e ↦ rw e h
  | inr e ↦ rw e (take_decoded-IsValid f o (decode (get_or f.words o 0)) h)
]

pub write_byte-IsValid : (f : PhysicalFrame) (o v : ℕ) → IsValid f → IsValid (write_byte f o v).1
unfolding write_byte
write_byte-IsValid f o v h = record {
  full = ground (arith, h.full, length-set f.words o (encode v));
  health = elim (Bool-cases (is_quarantined f.status)) [
    | inl e ↦ rw e h.health
    | inr e ↦
        rw e (elim (Bool-cases (leb page_size o)) [
          | inl e' ↦ rw e' h.health
          | inr e' ↦ rw e' h.health
        ])
  ];
}

-- The status after `n` more corrections.
abbrev pub note_corrections : ℕ → PageStatus → PageStatus
note_corrections zero s = s
note_corrections (suc n) s = note_corrections n (note_correction s)

note_corrections_quarantined : (n : ℕ) → note_corrections n quarantined ≡ quarantined
unfolding note_correction
note_corrections_quarantined zero = refl
note_corrections_quarantined (suc n) = note_corrections_quarantined n

note_corrections_recovered :
    (n c : ℕ)
    → c < 5
    → note_corrections n (recovered c) ≡ (if leb 5 (c + n) then quarantined else recovered (c + n))
unfolding note_correction
note_corrections_recovered zero c h = ground arith
note_corrections_recovered (suc n) c h = elim (Bool-cases (leb 5 (c + 1))) [
  | inl e ↦ rw (e, note_corrections_quarantined) (ground arith)
  | inr e ↦ rw e (ground (arith, note_corrections_recovered n (c + 1)))
]

-- A healthy page counts its corrected flips up to four, and is quarantined by the fifth.
pub note_corrections_lem :
    (n : ℕ)
    → note_corrections n healthy
      ≡ (if n == 0 then healthy else if leb 5 n then quarantined else recovered n)
unfolding note_correction
note_corrections_lem zero = refl
note_corrections_lem (suc n) = ground (arith, note_corrections_recovered n 1)
