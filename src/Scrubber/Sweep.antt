-- ===== src/Scrubber/Sweep.antt =====
-- A sweep settles every page that was active when it began.
use rustix_os.Prelude.{
  ℕ, zero, suc, ◌+◌, ◌≤◌, ◌<◌, ◌≡◌, ◌∙◌, refl, sym, ap, arith, true, false, Bool-cases,
  Option-cases, inl, inr, ◌⊎◌, some, List, [], ◌∷◌, get_elem?, get_elem?-some, ◌==◌, get_or,
}
use mathlib.Core.Path.{subst}
use rustix_os.Outcome.{Outcome, ok, err, panic, Error}
use rustix_os.Ecc.{decode}
use rustix_os.Frame.{PhysicalFrame, page_size, is_quarantined}
use rustix_os.Scrubber.Scan.{is_clean}
use rustix_os.Allocator.{MemoryAllocator, Run, total_pages}
use rustix_os.Allocator.Invariant.{IsValid}
use rustix_os.Scrubber.{
  ScrubReport, is_active, snapshot, next_page, scrub_page, scrub_pages, no_report, sweep,
}
use rustix_os.Scrubber.Page.{Finished, Settled, Kept, Scrubs, scrub_page-Scrubs}

infix 40 ◌∈◌
abbrev ◌∈◌ : ℕ → List ℕ → Type 0
j ∈ [] = ⊥
j ∈ x ∷ xs = (j ≡ x) ⊎ (j ∈ xs)

abbrev AllKept : MemoryAllocator → List ℕ → Type 0
AllKept a [] = Unit {0}
AllKept a (x ∷ xs) = (x < total_pages) × Kept a x × AllKept a xs

-- The snapshot holds kept pages only, and all that are active.
record Snaps (lo : ℕ) (a : MemoryAllocator) (r : Outcome (List ℕ) Error) : Type 0 where
  pages : List ℕ
  returns : r ≡ ok pages
  kept : AllKept a pages
  complete : (j : ℕ) → lo ≤ j → j < total_pages → is_active a j ≡ ok true → j ∈ pages

active_cases :
    (a : MemoryAllocator) (idx : ℕ)
    → IsValid a
    → idx < total_pages
    → (is_active a idx ≡ ok true) × Kept a idx ⊎ (is_active a idx ≡ ok false)
unfolding is_active
active_cases a idx valid hi =
    let o = get_elem?-some a.allocation_map idx (rw valid.map_full hi) in
    let f = get_elem?-some a.frames idx (rw valid.frames_full hi) in
    elim (Option-cases o.0) [
      | inl free ↦ inr (rw (o.1 ∙ ap some free, is_active))
      | inr (pid, owned) ↦ elim (Bool-cases (is_quarantined f.0.status)) [
        | inl out ↦ inr (rw (o.1 ∙ ap some owned, f.1, out, is_active))
        | inr used ↦
            inl (rw (o.1 ∙ ap some owned, f.1, used, is_active), inl (pid, o.1 ∙ ap some owned))
      ]
    ]

snapshot-Snaps :
    (left idx : ℕ) (a : MemoryAllocator)
    → IsValid a
    → idx + left ≡ total_pages
    → Snaps idx a (snapshot left idx a)
unfolding snapshot
snapshot-Snaps zero idx a valid e = record {
  pages = [];
  returns = refl;
  kept = tt;
  complete = λ j lo hi h. absurd (omega arith);
}
snapshot-Snaps (suc left) idx a valid e =
    let rest = snapshot-Snaps left (idx + 1) a valid (omega arith) in
    elim (active_cases a idx valid (omega arith)) [
      | inl (active, kept) ↦ record {
        pages = idx ∷ rest.pages;
        returns = rw (active, rest.returns);
        kept = (omega arith, kept, rest.kept);
        complete = λ j lo hi h. elim (Bool-cases (j == idx)) [
          | inl here ↦ inl (ground arith)
          | inr later ↦ inr (rest.complete j (ground arith) hi h)
        ];
      }
      | inr idle ↦ record {
        pages = rest.pages;
        returns = rw (idle, rest.returns);
        kept = rest.kept;
        complete = λ j lo hi h. elim (Bool-cases (j == idx)) [
          | inl here ↦ let same : j ≡ idx = ground arith in cc (ap (is_active a) same, h, idle)
          | inr later ↦ rest.complete j (ground arith) hi h
        ];
      }
    ]

-- What a run over a list of pages comes to.
pub record Sweeps (pages : List ℕ) (a : MemoryAllocator) (r : Run ScrubReport) : Type 0 where
  pub returned : Finished r.0
  pub valid : IsValid r.1
  pub settled : (j : ℕ) → j ∈ pages → Settled r.1 j
  pub keeps_settled : (j : ℕ) → Settled a j → Settled r.1 j

AllKept-keep :
    (a b : MemoryAllocator) (xs : List ℕ)
    → ((j : ℕ) → Kept a j → Kept b j)
    → AllKept a xs
    → AllKept b xs
AllKept-keep a b [] k h = tt
AllKept-keep a b (x ∷ xs) k (lt, h, hs) = (lt, k x h, AllKept-keep a b xs k hs)

next_page-Sweeps :
    {idx : ℕ} {a : MemoryAllocator} (rest : List ℕ) (r : Run ScrubReport)
    (next : ScrubReport → MemoryAllocator → Run ScrubReport)
    → Scrubs idx a r
    → ((report : ScrubReport) → Sweeps rest r.1 (next report r.1))
    → Sweeps (idx ∷ rest) a (next_page next r)
next_page-Sweeps {idx} rest (ok report, b) next s k =
    let t = k report in
    record {
      returned = t.returned;
      valid = t.valid;
      settled = λ j m. elim m [
        | inl e ↦ subst (Settled (next report b).1) (sym e) (t.keeps_settled idx s.moves.settled)
        | inr later ↦ t.settled j later
      ];
      keeps_settled = λ j h. t.keeps_settled j (s.moves.keeps_settled j h);
    }
next_page-Sweeps rest (err e, b) next s k = absurd s.returned
next_page-Sweeps rest (panic, b) next s k = absurd s.returned

scrub_pages-Sweeps :
    (pages : List ℕ) (report : ScrubReport) (a : MemoryAllocator)
    → IsValid a
    → AllKept a pages
    → Sweeps pages a (scrub_pages pages report a)
unfolding scrub_pages
scrub_pages-Sweeps [] report a valid h = record {
  returned = tt;
  valid = valid;
  settled = λ j m. absurd m;
  keeps_settled = λ j s. s;
}
scrub_pages-Sweeps (x ∷ xs) report a valid (lt, kept, h) =
    let first = scrub_page-Scrubs report a x valid lt kept in
    next_page-Sweeps xs (scrub_page report a x) (λ report' a'. scrub_pages xs report' a') first
      (λ report'.
        scrub_pages-Sweeps xs report' (scrub_page report a x).1 first.valid
          (AllKept-keep a (scrub_page report a x).1 xs first.moves.keeps_kept h))

-- A sweep of a valid allocator ends with a report and without a panic, and leaves a valid allocator.
pub sweep-Finished : (a : MemoryAllocator) → IsValid a → Finished (sweep a).0 × IsValid (sweep a).1
unfolding sweep
sweep-Finished a valid =
    let snap = snapshot-Snaps total_pages 0 a valid refl in
    let run = scrub_pages-Sweeps snap.pages no_report a valid snap.kept in
    rw (snap.returns, sweep) (run.returned, run.valid)

-- After a sweep of a valid allocator, the frame of a page that was active at its start is
-- quarantined, or each of its 64 words decodes with no error at all: no flip is left to grow into a
-- destroyed byte.
pub sweep-settles :
    (a : MemoryAllocator) (j : ℕ) (f : PhysicalFrame) (o : ℕ)
    → IsValid a
    → j < total_pages
    → is_active a j ≡ ok true
    → get_elem? (sweep a).1.frames j ≡ some f
    → o < page_size
    → (is_quarantined f.status ≡ true) ⊎ (is_clean (decode (get_or f.words o 0)) ≡ true)
unfolding sweep
sweep-settles a j f o valid hj active =
    let snap = snapshot-Snaps total_pages 0 a valid refl in
    let run = scrub_pages-Sweeps snap.pages no_report a valid snap.kept in
    rw (snap.returns, sweep)
      (λ hf ho. elim (run.settled j (snap.complete j (omega arith) hj active) f hf) [
        | inl q ↦ inl q
        | inr clean ↦ inr (clean o ho)
      ])
