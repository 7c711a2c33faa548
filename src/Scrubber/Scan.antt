-- ===== src/Scrubber/Scan.antt =====
-- Reading a page through: it ends without a latent error, or with a fault.
use mathlib.Core.Path.{subst}
use rustix_os.Prelude.{
  ℕ, zero, suc, ◌+◌, ◌<◌, ◌≡◌, ◌≢◌, ◌∙◌, refl, sym, leb, ◌==◌, arith, true, false, Bool, Bool-cases,
  inl, inr, none, some, List, [], ◌∷◌, ◌++◌, length, get_elem?, get_or, set, length-set,
  get_or-set_self, get_or-set_ne, get_elem?-set_self, get_elem?-set_ne, lt-of_get_elem?, ℕ_discrete,
}
use rustix_os.Outcome.{ok, err, panic}
use rustix_os.Ecc.{
  DecodeResult, no_error, corrected, uncorrectable, encode, decode, extract_data, syndrome,
  odd_ones,
}
use rustix_os.Ecc.Correct.{decode-encode}
use rustix_os.Frame.{PhysicalFrame, CorrectionEvent, ReadResult, page_size, read_byte, take_decoded}
use rustix_os.Frame.RoundTrip.{read_byte_lem}
use rustix_os.Allocator.{MemoryAllocator, total_pages}
use rustix_os.Allocator.Invariant.{IsValid, on_frame_lem}
use rustix_os.Allocator.Safe.{Safe, Any, read-Safe}
use rustix_os.Scrubber.{Scan, next_byte, read_page}

abbrev pub is_clean : DecodeResult → Bool
is_clean (no_error v) = true
is_clean (corrected v p) = false
is_clean uncorrectable = false

-- The first `n` words decode with no error.
abbrev pub CleanBelow : ℕ → List ℕ → Type 0
CleanBelow n ws = (o : ℕ) → o < n → is_clean (decode (get_or ws o 0)) ≡ true

-- A byte that comes out of the code is a byte.
abbrev pub IsByte : DecodeResult → Type 0
IsByte (no_error v) = v < 256
IsByte (corrected v p) = v < 256
IsByte uncorrectable = Unit {0}

extract_data-lt : (w : ℕ) → extract_data w < 256
unfolding extract_data
extract_data-lt w = omega arith

pub decode-IsByte : (w : ℕ) → IsByte (decode w)
unfolding decode
decode-IsByte w = elim (Bool-cases (odd_ones w)) [
  | inl odd ↦ elim (Bool-cases (syndrome w == 0)) [
    | inl e ↦ rw (odd, e, decode) (extract_data-lt _)
    | inr e ↦ elim (Bool-cases (leb (syndrome w) 12)) [
      | inl low ↦ rw (odd, e, low, decode) (extract_data-lt _)
      | inr high ↦ rw (odd, e, high, decode) tt
    ]
  ]
  | inr even ↦ elim (Bool-cases (syndrome w == 0)) [
    | inl e ↦ rw (even, e, decode) (extract_data-lt _)
    | inr e ↦ rw (even, e, decode) tt
  ]
]

-- What a read leaves in the word that it read.
abbrev Reads : PhysicalFrame → ℕ → ReadResult × PhysicalFrame → Type 0
Reads f o (ok x, g) =
    (CleanBelow o f.words → CleanBelow (o + 1) g.words) × (length g.words ≡ length f.words)
Reads f o (err d, g) = Unit {0}
Reads f o (panic, g) = Unit {0}

take_decoded-Reads :
    (f : PhysicalFrame) (o : ℕ) (r : DecodeResult)
    → o < length f.words
    → decode (get_or f.words o 0) ≡ r
    → IsByte r
    → Reads f o (take_decoded f o r)
take_decoded-Reads f o (no_error v) lt e b = (
  (λ clean i hi. elim (ℕ_discrete o i) [ yes s ↦ rw (← s) (rw e) | no ne ↦ clean i (omega arith) ]),
  refl,
)
take_decoded-Reads f o (corrected v p) lt e b = (
  (λ clean i hi. elim (ℕ_discrete o i) [
    | yes s ↦ rw (← s) (rw (get_or-set_self f.words o (encode v) 0 lt, decode-encode v b))
    | no ne ↦ rw (get_or-set_ne f.words o i (encode v) 0 ne) (clean i (omega arith))
  ]),
  length-set f.words o (encode v),
)
take_decoded-Reads f o uncorrectable lt e b = tt

pub read_byte-Reads :
    (f : PhysicalFrame) (o : ℕ)
    → o < page_size
    → length f.words ≡ page_size
    → Reads f o (read_byte f o)
read_byte-Reads f o ho full =
    rw (read_byte_lem f o ho)
      (take_decoded-Reads f o (decode (get_or f.words o 0)) (rw full ho) refl (decode-IsByte _))

-- The allocators differ in frame `idx` alone.
pub record OnlyFrame (idx : ℕ) (a a' : MemoryAllocator) : Type 0 where
  pub owners : a'.allocation_map ≡ a.allocation_map
  pub others : (j : ℕ) → j ≢ idx → get_elem? a'.frames j ≡ get_elem? a.frames j

pub OnlyFrame-refl : (idx : ℕ) (a : MemoryAllocator) → OnlyFrame idx a a
OnlyFrame-refl idx a = record { owners = refl; others = λ j ne. refl }

OnlyFrame-trans :
    {idx : ℕ} {a b c : MemoryAllocator} → OnlyFrame idx a b → OnlyFrame idx b c → OnlyFrame idx a c
OnlyFrame-trans h k = record {
  owners = k.owners ∙ h.owners;
  others = λ j ne. k.others j ne ∙ h.others j ne;
}

-- What a scan may answer: the page is clean, or it met a fault.
pub data Scanned (idx : ℕ) (a : MemoryAllocator) : Scan → Type 0 where
  cleaned :
      (seen : List CorrectionEvent) (a' : MemoryAllocator)
      → IsValid a'
      → OnlyFrame idx a a'
      → ((g : PhysicalFrame) → get_elem? a'.frames idx ≡ some g → CleanBelow page_size g.words)
      → Scanned idx a (ok (false, seen), a')
  faulted :
      (seen : List CorrectionEvent) (a' : MemoryAllocator)
      → IsValid a'
      → OnlyFrame idx a a'
      → Scanned idx a (ok (true, seen), a')

Scanned-after :
    {idx : ℕ} {a b : MemoryAllocator} {r : Scan}
    → OnlyFrame idx a b
    → Scanned idx b r
    → Scanned idx a r
Scanned-after h (cleaned seen a' v k c) = cleaned seen a' v (OnlyFrame-trans h k) c
Scanned-after h (faulted seen a' v k) = faulted seen a' v (OnlyFrame-trans h k)

module _ (idx : ℕ) (a : MemoryAllocator) (f : PhysicalFrame) (hf : get_elem? a.frames idx ≡ some f)
    (o : ℕ) where
  abbrev replaced : PhysicalFrame → MemoryAllocator
  replaced g = record a { frames = set a.frames idx g }

  OnlyFrame-replaced : (g : PhysicalFrame) → OnlyFrame idx a (replaced g)
  OnlyFrame-replaced g = record {
    owners = refl;
    others = λ j ne. get_elem?-set_ne a.frames g (λ e. ne (sym e));
  }

  next_byte-Scanned :
      (next : List CorrectionEvent → MemoryAllocator → Scan) (seen : List CorrectionEvent)
      (r : ReadResult) (g : PhysicalFrame)
      → CleanBelow o f.words
      → Safe Any (r, replaced g)
      → Reads f o (r, g)
      → ((seen' : List CorrectionEvent)
          → CleanBelow (o + 1) g.words
          → Scanned idx (replaced g) (next seen' (replaced g)))
      → Scanned idx a (next_byte next seen (r, replaced g))
  next_byte-Scanned next seen (ok (v, some e)) g clean s reads k =
      Scanned-after (OnlyFrame-replaced g) (k (seen ++ e ∷ []) (reads.0 clean))
  next_byte-Scanned next seen (ok (v, none)) g clean s reads k =
      Scanned-after (OnlyFrame-replaced g) (k seen (reads.0 clean))
  next_byte-Scanned next seen (err d) g clean s reads k =
      faulted seen (replaced g) s.valid (OnlyFrame-replaced g)
  next_byte-Scanned next seen panic g clean s reads k = absurd s.returned

-- Reading a page from `o` on, where the words below `o` are clean already, ends with a clean page or
-- with a fault, and changes no other frame and no owner.
pub read_page-Scanned :
    (left o : ℕ) (a : MemoryAllocator) (idx : ℕ) (seen : List CorrectionEvent) (f : PhysicalFrame)
    → o + left ≡ page_size
    → idx < total_pages
    → IsValid a
    → get_elem? a.frames idx ≡ some f
    → CleanBelow o f.words
    → Scanned idx a (read_page left o a idx seen)
unfolding read_page
read_page-Scanned zero o a idx seen f e lt valid hf clean =
    cleaned seen a valid (OnlyFrame-refl idx a) (λ g hg i hi.
      let same : f ≡ g = cc in
      subst (λ (p : PhysicalFrame). is_clean (decode (get_or p.words i 0)) ≡ true) same
        (clean i (omega arith)))
read_page-Scanned (suc left) o a idx seen f e lt valid hf clean =
    let read = on_frame_lem a idx (λ f. read_byte f o) hf in
    let g = (read_byte f o).1 in
    let safe = subst (Safe Any) read (read-Safe a idx o valid lt) in
    rw read (
      next_byte-Scanned idx a f hf o (λ seen' a'. read_page left (o + 1) a' idx seen') seen
        (read_byte f o).0 g clean safe
        (read_byte-Reads f o (omega arith) (valid.each idx f hf).valid.full)
        (λ seen' c.
          read_page-Scanned left (o + 1) (record a { frames = set a.frames idx g }) idx seen' g
            (omega arith) lt safe.valid
            (get_elem?-set_self a.frames idx g (lt-of_get_elem? a.frames idx hf)) c))
