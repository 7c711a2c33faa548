-- ===== src/Allocator/Safe.antt =====
-- No operation panics on a valid allocator, and each leaves a valid one, on every branch.
use rustix_os.Prelude.{
  ℕ, ◌<◌, ◌≡◌, ◌∙◌, refl, sym, ap, get_or, leb, arith, Bool-cases, if_lem, Option-cases, inl, inr,
  some, get_elem?, get_elem?-some,
}
use mathlib.Core.Path.{subst}
use rustix_os.Outcome.{Outcome, ok, err, panic}
use rustix_os.Frame.{PhysicalFrame, page_size, is_quarantined, read_byte, write_byte, take_decoded}
use rustix_os.Ecc.{DecodeResult, no_error, corrected, uncorrectable, decode}
use rustix_os.Frame.Health.{StatusOk, read_byte-IsValid, write_byte-IsValid}
use rustix_os.Allocator.{
  MemoryAllocator, Run, total_pages, on_frame, relocate_and_quarantine, inject_bit_flip,
}
use rustix_os.Allocator.Invariant.{IsValid, set_frame-IsValid, set_owner-IsValid, on_frame_lem}
use rustix_os.Allocator.Relocate.{
  Relocates, without, moved, no_room, relocate-Relocates, isolate-IsValid,
}

-- The call returned, and its value satisfies `Post` where it is `Ok`.
abbrev pub Returned {ℓ κ} : {A : Type ℓ} {E : Type κ} → (A → Type 0) → Outcome A E → Type 0
Returned Post (ok x) = Post x
Returned Post (err e) = Unit {0}
Returned Post panic = ⊥

pub record Safe {ℓ κ} {A : Type ℓ} {E : Type κ} (Post : A → Type 0)
    (r : Outcome A E × MemoryAllocator) : Type 0 where
  pub returned : Returned Post r.0
  pub valid : IsValid r.1

abbrev pub Any {ℓ} : {A : Type ℓ} → A → Type 0
Any x = Unit {0}

abbrev IsIndex : ℕ → Type 0
IsIndex n = n < total_pages

Relocates-Safe :
    {a : MemoryAllocator} {d pid : ℕ} {f : PhysicalFrame} {r : Run ℕ}
    → IsValid a
    → IsValid (without a d f)
    → Relocates a d pid f r
    → Safe IsIndex r
Relocates-Safe {a} {d} {pid} {f} valid v (moved n g g' hn ne free hg saved) = record {
  returned = hn;
  valid =
      set_owner-IsValid
        (set_frame-IsValid v n g' (record {
          valid = record {
            full = saved.size;
            health = subst StatusOk (sym saved.status) (valid.each n g hg).valid.health;
          };
          at_index = saved.index ∙ (valid.each n g hg).at_index;
        }))
        n (some pid);
}
Relocates-Safe valid v (no_room h) = record { returned = tt; valid = v }

-- On a valid allocator, relocation of any index returns without a panic and keeps the allocator
-- valid; where it succeeds, it gives a frame of the pool.
pub relocate-Safe :
    (a : MemoryAllocator) (d : ℕ)
    → IsValid a
    → Safe (λ n. n < total_pages) (relocate_and_quarantine a d)
unfolding relocate_and_quarantine
relocate-Safe a d valid = elim (Bool-cases (leb total_pages d)) [
  | inl e ↦ rw (e, relocate_and_quarantine) (record { returned = tt; valid = valid })
  | inr e ↦
      let o = get_elem?-some a.allocation_map d (rw valid.map_full (ground arith)) in
      let f = get_elem?-some a.frames d (rw valid.frames_full (ground arith)) in
      elim (Option-cases o.0) [
        | inl free ↦
            rw (e, o.1 ∙ ap some free, relocate_and_quarantine)
              (record { returned = tt; valid = valid })
        | inr (pid, owned) ↦
            Relocates-Safe valid (isolate-IsValid valid d pid f.0 f.1)
              (relocate-Relocates a d pid f.0 valid (o.1 ∙ ap some owned) f.1)
      ]
]

module _ (a : MemoryAllocator) (i o : ℕ) (valid : IsValid a) (lt : i < total_pages) where
  in_pool : (f : PhysicalFrame) × (get_elem? a.frames i ≡ some f)
  in_pool = get_elem?-some a.frames i (rw valid.frames_full lt)

  decoded_returns :
      (f : PhysicalFrame) (r : DecodeResult)
      → Returned Any (take_decoded f o r).0 × ((take_decoded f o r).1.index ≡ f.index)
  decoded_returns f (no_error v) = (tt, refl)
  decoded_returns f (corrected v p) = (tt, refl)
  decoded_returns f uncorrectable = (tt, refl)

  read_returns :
      (f : PhysicalFrame) → Returned Any (read_byte f o).0 × ((read_byte f o).1.index ≡ f.index)
  unfolding read_byte
  read_returns f = elim (Bool-cases (leb page_size o)) [
    | inl e ↦ rw e (tt, refl)
    | inr e ↦ rw e (decoded_returns f (decode (get_or f.words o 0)))
  ]

  -- Reading a byte of a frame of the pool, at any offset.
  pub read-Safe : Safe Any (on_frame a i (λ f. read_byte f o))
  read-Safe =
      let f = in_pool in
      rw (on_frame_lem a i (λ f. read_byte f o) f.1) (record {
        returned = (read_returns f.0).0;
        valid = set_frame-IsValid valid i _ (record {
          valid = read_byte-IsValid f.0 o (valid.each i f.0 f.1).valid;
          at_index = (read_returns f.0).1 ∙ (valid.each i f.0 f.1).at_index;
        });
      })

  write_returns :
      (f : PhysicalFrame) (v : ℕ)
      → Returned Any (write_byte f o v).0 × ((write_byte f o v).1.index ≡ f.index)
  unfolding write_byte
  write_returns f v = elim (Bool-cases (is_quarantined f.status)) [
    | inl e ↦ rw e (tt, refl)
    | inr e ↦ rw e (elim (Bool-cases (leb page_size o)) [
      | inl e' ↦ rw e' (tt, refl)
      | inr e' ↦ rw e' (tt, refl)
    ])
  ]

  -- Writing a byte of a frame of the pool, at any offset.
  pub write-Safe : (v : ℕ) → Safe Any (on_frame a i (λ f. write_byte f o v))
  write-Safe v =
      let f = in_pool in
      rw (on_frame_lem a i (λ f. write_byte f o v) f.1) (record {
        returned = (write_returns f.0 v).0;
        valid = set_frame-IsValid valid i _ (record {
          valid = write_byte-IsValid f.0 o v (valid.each i f.0 f.1).valid;
          at_index = (write_returns f.0 v).1 ∙ (valid.each i f.0 f.1).at_index;
        });
      })

-- A flip within bounds or out of them.
pub inject_bit_flip-Returned :
    (a : MemoryAllocator) (i offset k : ℕ)
    → IsValid a
    → Returned Any (inject_bit_flip a i offset k).0
unfolding inject_bit_flip
inject_bit_flip-Returned a i offset k valid = elim (Bool-cases (leb total_pages i)) [
  | inl e ↦ rw e tt
  | inr e ↦
      let x = get_elem?-some a.frames i (ground (arith, e, valid.frames_full)) in
      rw (e, x.1)
        (if_lem (λ (r : Run (Unit {0})). Returned Any r.0) (leb page_size offset) tt
          (if_lem (λ (r : Run (Unit {0})). Returned Any r.0) (leb 16 k) tt tt))
]
