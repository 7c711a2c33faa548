-- ===== src/Scrubber/Page.antt =====
-- Scrubbing one page settles it, and unsettles no other.
use mathlib.Core.Path.{subst}
use rustix_os.Prelude.{
  ℕ, ◌+◌, ◌<◌, ◌≡◌, ◌∙◌, refl, sym, ap, arith, true, Bool-cases, Option-cases, inl, inr, ◌⊎◌,
  Option, none, some, get_elem?, get_elem?-some, get_or, set, get_elem?-set_self, get_elem?-set_ne,
  ℕ_discrete,
}
use rustix_os.Outcome.{Outcome, ok, err, panic}
use rustix_os.Ecc.{DecodeResult, no_error, corrected, uncorrectable, decode}
use rustix_os.Ecc.Correct.{decode-encode}
use rustix_os.Frame.{PhysicalFrame, page_size, is_quarantined, quarantined}
use rustix_os.Allocator.{MemoryAllocator, Run, total_pages, salvage, relocate_and_quarantine}
use rustix_os.Allocator.Invariant.{IsValid}
use rustix_os.Allocator.Relocate.{
  Saved, without, Relocates, moved, no_room, isolate-IsValid, relocate-Relocates,
}
use rustix_os.Allocator.Safe.{Safe, relocate-Safe}
use rustix_os.Scrubber.{ScrubReport, Scan, note_relocation, finish_page, scrub_page}
use rustix_os.Scrubber.Scan.{
  CleanBelow, IsByte, decode-IsByte, OnlyFrame, Scanned, cleaned, faulted, read_page-Scanned,
}

-- The frame is out of use, or holds no latent error.
abbrev pub SettledFrame : PhysicalFrame → Type 0
SettledFrame f = (is_quarantined f.status ≡ true) ⊎ CleanBelow page_size f.words

abbrev pub Settled : MemoryAllocator → ℕ → Type 0
Settled a j = (f : PhysicalFrame) → get_elem? a.frames j ≡ some f → SettledFrame f

-- The page is owned, or its frame is out of use.
abbrev pub Kept : MemoryAllocator → ℕ → Type 0
Kept a j =
    ((pid : ℕ) × (get_elem? a.allocation_map j ≡ some (some pid)))
    ⊎ ((f : PhysicalFrame) × (get_elem? a.frames j ≡ some f) × (is_quarantined f.status ≡ true))

salvage-lt : (r : DecodeResult) → IsByte r → salvage r < 256
unfolding salvage
salvage-lt (no_error v) h = h
salvage-lt (corrected v p) h = h
salvage-lt uncorrectable h = omega arith

-- A page that was relocated is clean.
pub Saved-clean : {f g g' : PhysicalFrame} → Saved f g g' → CleanBelow page_size g'.words
Saved-clean {f} {g} {g'} s o ho = rw (
  s.bytes o ho,
  decode-encode (salvage (decode (get_or f.words o 0))) (salvage-lt _ (decode-IsByte _)),
)

-- A frame and its owner, written together.
abbrev pub put_page : MemoryAllocator → ℕ → PhysicalFrame → Option ℕ → MemoryAllocator
put_page a n g o = record { frames = set a.frames n g; allocation_map = set a.allocation_map n o }

-- A change of the allocator that settles page `n` and unsettles none.
pub record Moves (n : ℕ) (a a' : MemoryAllocator) : Type 0 where
  pub settled : Settled a' n
  pub keeps_settled : (j : ℕ) → Settled a j → Settled a' j
  pub keeps_kept : (j : ℕ) → Kept a j → Kept a' j

module _ (a : MemoryAllocator) (n : ℕ) (g : PhysicalFrame) (o : Option ℕ) (valid : IsValid a)
    (hn : n < total_pages) (good : SettledFrame g)
    (kept : ((pid : ℕ) × (o ≡ some pid)) ⊎ (is_quarantined g.status ≡ true)) where
  frame_put : get_elem? (put_page a n g o).frames n ≡ some g
  frame_put = get_elem?-set_self a.frames n g (rw valid.frames_full hn)

  owner_put : get_elem? (put_page a n g o).allocation_map n ≡ some o
  owner_put = get_elem?-set_self a.allocation_map n o (rw valid.map_full hn)

  put_page-Settled : Settled (put_page a n g o) n
  put_page-Settled f hf = let same : g ≡ f = cc frame_put in subst SettledFrame same good

  put_page-Moves : Moves n a (put_page a n g o)
  put_page-Moves = record {
    settled = put_page-Settled;
    keeps_settled = λ j h. elim (ℕ_discrete n j) [
      | yes e ↦ subst (Settled (put_page a n g o)) e put_page-Settled
      | no ne ↦ λ f hf. h f (sym (get_elem?-set_ne a.frames {i = n} {j = j} g ne) ∙ hf)
    ];
    keeps_kept = λ j h. elim (ℕ_discrete n j) [
      | yes e ↦ subst (Kept (put_page a n g o)) e (elim kept [
        | inl (pid, q) ↦ inl (pid, owner_put ∙ ap some q)
        | inr q ↦ inr (g, frame_put, q)
      ])
      | no ne ↦ elim h [
        | inl (pid, q) ↦ inl (pid, get_elem?-set_ne a.allocation_map {i = n} {j = j} o ne ∙ q)
        | inr (f, hf, q) ↦ inr (f, get_elem?-set_ne a.frames {i = n} {j = j} g ne ∙ hf, q)
      ]
    ];
  }

Moves-trans : {d n : ℕ} {a b c : MemoryAllocator} → Moves d a b → Moves n b c → Moves d a c
Moves-trans {d} h k = record {
  settled = k.keeps_settled d h.settled;
  keeps_settled = λ j s. k.keeps_settled j (h.keeps_settled j s);
  keeps_kept = λ j s. k.keeps_kept j (h.keeps_kept j s);
}

Relocates-Moves :
    {a : MemoryAllocator} {d pid : ℕ} {f : PhysicalFrame} {r : Run ℕ}
    → IsValid a
    → IsValid (without a d f)
    → d < total_pages
    → Relocates a d pid f r
    → Moves d a r.1
Relocates-Moves {a} {d} {pid} {f} valid v hd (moved n g g' hn ne free hg saved) =
    Moves-trans
      (put_page-Moves a d (record f { status = quarantined }) none valid hd (inl refl) (inr refl))
      (put_page-Moves (without a d f) n g' (some pid) v hn (inr (Saved-clean saved))
        (inl (pid, refl)))
Relocates-Moves {a} {d} {pid} {f} valid v hd (no_room h) =
    put_page-Moves a d (record f { status = quarantined }) none valid hd (inl refl) (inr refl)

-- Reading an owned page first changes nothing of this.
OnlyFrame-Moves :
    {idx : ℕ} {a a' b : MemoryAllocator} (pid : ℕ)
    → OnlyFrame idx a a'
    → get_elem? a.allocation_map idx ≡ some (some pid)
    → Moves idx a' b
    → Moves idx a b
OnlyFrame-Moves {idx} {a} {a'} {b} pid only owned m = record {
  settled = m.settled;
  keeps_settled = λ j h. elim (ℕ_discrete idx j) [
    | yes e ↦ subst (Settled b) e m.settled
    | no ne ↦ m.keeps_settled j (λ f hf. h f (sym (only.others j (λ e. ne (sym e))) ∙ hf))
  ];
  keeps_kept = λ j h. elim (ℕ_discrete idx j) [
    | yes e ↦ subst (Kept b) e (m.keeps_kept idx (inl (pid, rw only.owners owned)))
    | no ne ↦ m.keeps_kept j (elim h [
      | inl (p, q) ↦ inl (p, rw only.owners q)
      | inr (f, hf, q) ↦ inr (f, only.others j (λ e. ne (sym e)) ∙ hf, q)
    ])
  ];
}

Moves-refl : {idx : ℕ} {a : MemoryAllocator} → Settled a idx → Moves idx a a
Moves-refl s = record { settled = s; keeps_settled = λ j h. h; keeps_kept = λ j h. h }

-- The call returned `Ok`.
abbrev pub Finished {ℓ κ} : {A : Type ℓ} {E : Type κ} → Outcome A E → Type 0
Finished (ok x) = Unit {0}
Finished (err e) = ⊥
Finished panic = ⊥

-- What scrubbing a page comes to.
pub record Scrubs (idx : ℕ) (a : MemoryAllocator) (r : Run ScrubReport) : Type 0 where
  pub returned : Finished r.0
  pub valid : IsValid r.1
  pub moves : Moves idx a r.1

note_relocation-Scrubs :
    {idx : ℕ} {a : MemoryAllocator} (report : ScrubReport) (r : Run ℕ)
    → Safe (λ n. n < total_pages) r
    → Moves idx a r.1
    → Scrubs idx a (note_relocation report idx r)
note_relocation-Scrubs report (ok fresh, b) s m = record {
  returned = tt;
  valid = s.valid;
  moves = m;
}
note_relocation-Scrubs report (err e, b) s m = record { returned = tt; valid = s.valid; moves = m }
note_relocation-Scrubs report (panic, b) s m = absurd s.returned

finish_page-Scrubs :
    {idx : ℕ} {a : MemoryAllocator} {r : Scan} (report : ScrubReport) (pid : ℕ)
    → idx < total_pages
    → get_elem? a.allocation_map idx ≡ some (some pid)
    → Scanned idx a r
    → Scrubs idx a (finish_page report idx r)
finish_page-Scrubs report pid hi owned (cleaned seen a' valid only clean) = record {
  returned = tt;
  valid = valid;
  moves = OnlyFrame-Moves pid only owned (Moves-refl (λ g hg. inr (clean g hg)));
}
finish_page-Scrubs {idx} report pid hi owned (faulted seen a' valid only) =
    let f = get_elem?-some a'.frames idx (rw valid.frames_full hi) in
    let owned' : get_elem? a'.allocation_map idx ≡ some (some pid) = rw only.owners owned in
    note_relocation-Scrubs (record report { corrections = seen }) (relocate_and_quarantine a' idx)
      (relocate-Safe a' idx valid)
      (OnlyFrame-Moves pid only owned (
        Relocates-Moves valid (isolate-IsValid valid idx pid f.0 f.1) hi
          (relocate-Relocates a' idx pid f.0 valid owned' f.1)))

-- Scrubbing a kept page does not panic; it ends quarantined or without a latent error, and no page
-- that was so before, or that was kept, is lost.
pub scrub_page-Scrubs :
    (report : ScrubReport) (a : MemoryAllocator) (idx : ℕ)
    → IsValid a
    → idx < total_pages
    → Kept a idx
    → Scrubs idx a (scrub_page report a idx)
unfolding scrub_page
scrub_page-Scrubs report a idx valid hi kept = elim kept [
  | inl (pid, owned) ↦
      let f = get_elem?-some a.frames idx (rw valid.frames_full hi) in
      elim (Bool-cases (is_quarantined f.0.status)) [
        | inl out ↦ rw (owned, f.1, out, scrub_page) (skipped f.0 f.1 out)
        | inr used ↦
            rw (owned, f.1, used, scrub_page)
              (finish_page-Scrubs (record report { pages_checked = report.pages_checked + 1 }) pid
                hi owned
                (read_page-Scanned page_size 0 a idx report.corrections f.0 refl hi valid f.1
                  (λ o ho. absurd (omega arith))))
      ]
  | inr (f, hf, out) ↦
      let o = get_elem?-some a.allocation_map idx (rw valid.map_full hi) in
      elim (Option-cases o.0) [
        | inl free ↦ rw (o.1 ∙ ap some free, scrub_page) (skipped f hf out)
        | inr (pid, owned) ↦ rw (o.1 ∙ ap some owned, hf, out, scrub_page) (skipped f hf out)
      ]
]
  where
    settled_out :
        (f : PhysicalFrame)
        → get_elem? a.frames idx ≡ some f
        → is_quarantined f.status ≡ true
        → Settled a idx
    settled_out f hf out g hg = let same : f ≡ g = cc in subst SettledFrame same (inl out)

    skipped :
        (f : PhysicalFrame)
        → get_elem? a.frames idx ≡ some f
        → is_quarantined f.status ≡ true
        → Scrubs idx a (ok report, a)
    skipped f hf out = record {
      returned = tt;
      valid = valid;
      moves = Moves-refl (settled_out f hf out);
    }
