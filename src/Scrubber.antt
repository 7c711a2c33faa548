-- ===== src/Scrubber.antt =====
-- memory-subsystem/src/scrubber.rs: the sweep that reads every byte of every owned page.
pub mod Scan
pub mod Page
pub mod Sweep
use package.rustix_os.Prelude.{
  ℕ, zero, suc, ◌+◌, Bool, true, false, not, Option, none, some, List, [], ◌∷◌, ◌++◌, get_elem?,
  if◌then◌else◌,
}
use package.rustix_os.Outcome.{Outcome, ok, err, panic, Error}
use package.rustix_os.Frame.{CorrectionEvent, ReadResult, page_size, is_quarantined, read_byte}
use package.rustix_os.Allocator.{
  MemoryAllocator, Run, total_pages, on_frame, relocate_and_quarantine,
}

-- `relocations` holds pairs of the damaged and the fresh frame.
pub record ScrubReport : Type 0 where
  pub pages_checked : ℕ
  pub corrections : List CorrectionEvent
  pub relocations : List (ℕ × ℕ)

-- `allocation_map[idx].is_some() && frames[idx].status != Quarantined`.
unfoldable pub is_active : MemoryAllocator → ℕ → Outcome Bool Error
is_active a idx = elim (get_elem? a.allocation_map idx) [
  | none ↦ panic
  | some none ↦ ok false
  | some (some pid) ↦ elim (get_elem? a.frames idx) [
    | none ↦ panic
    | some f ↦ ok (not (is_quarantined f.status))
  ]
]

abbrev pub keep_active : ℕ → Outcome Bool Error → Outcome (List ℕ) Error → Outcome (List ℕ) Error
keep_active idx (ok true) (ok rest) = ok (idx ∷ rest)
keep_active idx (ok false) (ok rest) = ok rest
keep_active idx (ok active) (err e) = err e
keep_active idx (ok active) panic = panic
keep_active idx (err e) rest = err e
keep_active idx panic rest = panic

-- The indices of the snapshot from `idx` on, with `left` frames to look at.
unfoldable pub snapshot : ℕ → ℕ → MemoryAllocator → Outcome (List ℕ) Error
unfolding is_active
snapshot zero idx a = ok []
snapshot (suc left) idx a = keep_active idx (is_active a idx) (snapshot left (idx + 1) a)

-- A scan returns whether it met a fault, and the corrections so far.
abbrev pub Scan : Type 0
Scan = Run (Bool × List CorrectionEvent)

-- What a read does to the scan; `next` reads on.
abbrev pub next_byte :
    (List CorrectionEvent → MemoryAllocator → Scan)
    → List CorrectionEvent
    → ReadResult × MemoryAllocator
    → Scan
next_byte next seen (ok (v, some event), a) = next (seen ++ event ∷ []) a
next_byte next seen (ok (v, none), a) = next seen a
next_byte next seen (err damaged, a) = (ok (true, seen), a)
next_byte next seen (panic, a) = (panic, a)

-- The reading loop, with `left` bytes to go from `offset`.
unfoldable pub read_page : ℕ → ℕ → MemoryAllocator → ℕ → List CorrectionEvent → Scan
read_page zero offset a idx seen = (ok (false, seen), a)
read_page (suc left) offset a idx seen =
    next_byte (λ seen' a'. read_page left (offset + 1) a' idx seen') seen
      (on_frame a idx (λ f. read_byte f offset))

-- The end of a page that was relocated: a failure of it is not reported.
abbrev pub note_relocation : ScrubReport → ℕ → Run ℕ → Run ScrubReport
note_relocation report idx (ok fresh, a) =
    (ok (record report { relocations = report.relocations ++ (idx, fresh) ∷ [] }), a)
note_relocation report idx (err e, a) = (ok report, a)
note_relocation report idx (panic, a) = (panic, a)

abbrev pub finish_page : ScrubReport → ℕ → Scan → Run ScrubReport
finish_page report idx (ok (true, seen), a) =
    note_relocation (record report { corrections = seen }) idx (relocate_and_quarantine a idx)
finish_page report idx (ok (false, seen), a) = (ok (record report { corrections = seen }), a)
finish_page report idx (err e, a) = (err e, a)
finish_page report idx (panic, a) = (panic, a)

-- One index of the snapshot, checked again.
unfoldable pub scrub_page : ScrubReport → MemoryAllocator → ℕ → Run ScrubReport
unfolding is_active
scrub_page report a idx = elim (is_active a idx) [
  | ok true ↦
      finish_page (record report { pages_checked = report.pages_checked + 1 }) idx
        (read_page page_size 0 a idx report.corrections)
  | ok false ↦ (ok report, a)
  | err e ↦ (err e, a)
  | panic ↦ (panic, a)
]

abbrev pub next_page :
    (ScrubReport → MemoryAllocator → Run ScrubReport) → Run ScrubReport → Run ScrubReport
next_page next (ok report, a) = next report a
next_page next (err e, a) = (err e, a)
next_page next (panic, a) = (panic, a)

unfoldable pub scrub_pages : List ℕ → ScrubReport → MemoryAllocator → Run ScrubReport
scrub_pages [] report a = (ok report, a)
scrub_pages (idx ∷ rest) report a =
    next_page (λ report' a'. scrub_pages rest report' a') (scrub_page report a idx)

abbrev pub no_report : ScrubReport
no_report = record { pages_checked = 0; corrections = []; relocations = [] }

unfoldable pub sweep : MemoryAllocator → Run ScrubReport
sweep a = elim (snapshot total_pages 0 a) [
  | ok active ↦ scrub_pages active no_report a
  | err e ↦ (err e, a)
  | panic ↦ (panic, a)
]
