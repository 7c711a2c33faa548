-- ===== src/Allocator/Invariant.antt =====
-- What an allocator always satisfies, and that the writes of the operations keep it.
use rustix_os.Prelude.{
  ℕ, zero, suc, ◌+◌, ◌*◌, ◌<◌, ◌≡◌, ◌∙◌, refl, sym, ap, ◌&&◌, ◌==◌, ltb, leb, if◌then◌else◌, arith,
  Bool-cases, Option-cases, inl, inr, Option, none, some, length, get_elem?, set, length-set,
  get_elem?-set,
}
use mathlib.Core.Path.{subst, subst₂}
use rustix_os.Outcome.{Outcome, ok, err, invalid_frame}
use rustix_os.Frame
use rustix_os.Frame.{PhysicalFrame, page_size, flip_bit}
use rustix_os.Frame.Health
use rustix_os.Allocator.{
  MemoryAllocator, total_pages, new_from, new, deallocate_page, inject_bit_flip, on_frame,
}

-- A frame that may stand at index `i`.
pub record Fits (i : ℕ) (f : PhysicalFrame) : Type 0 where
  pub valid : Health.IsValid f
  pub at_index : f.index ≡ i

pub record IsValid (a : MemoryAllocator) : Type 0 where
  pub frames_full : length a.frames ≡ total_pages
  pub map_full : length a.allocation_map ≡ total_pages
  pub each : (i : ℕ) (f : PhysicalFrame) → get_elem? a.frames i ≡ some f → Fits i f

new_from-frames :
    (left idx i : ℕ) (f : PhysicalFrame)
    → get_elem? (new_from left idx).frames i ≡ some f
    → f ≡ Frame.new (idx + i) ((idx + i) * 64)
unfolding new_from
new_from-frames zero idx i f h = cc
new_from-frames (suc left) idx zero f h = ground arith
new_from-frames (suc left) idx (suc i) f h =
    new_from-frames left (idx + 1) i f h ∙ ap (λ (k : ℕ). Frame.new k (k * 64)) (omega arith)

length-new_from :
    (left idx : ℕ)
    → (length (new_from left idx).frames ≡ left)
      × (length (new_from left idx).allocation_map ≡ left)
unfolding new_from
length-new_from zero idx = (refl, refl)
length-new_from (suc left) idx = omega (arith, length-new_from left (idx + 1))

Fits-new : (i k j : ℕ) → k ≡ i → Fits i (Frame.new k j)
unfolding Frame.new
Fits-new i k j e = record { valid = Health.new-IsValid k j; at_index = e }

-- The allocator of `new` is valid.
pub new-IsValid : IsValid new
unfolding new
new-IsValid = record {
  frames_full = (length-new_from 64 0).0;
  map_full = (length-new_from 64 0).1;
  each = λ i f h. subst (Fits i) (sym (new_from-frames 64 0 i f h)) (Fits-new i _ _ (omega arith));
}

-- A method of a frame that is there.
pub on_frame_lem {ℓ κ} :
    {A : Type ℓ} {E : Type κ} (a : MemoryAllocator) (i : ℕ)
    (method : PhysicalFrame → Outcome A E × PhysicalFrame) {f : PhysicalFrame}
    → get_elem? a.frames i ≡ some f
    → on_frame a i method ≡ ((method f).0, record a { frames = set a.frames i (method f).1 })
unfolding on_frame
on_frame_lem a i method h = rw (h, on_frame)

module _ {a : MemoryAllocator} (valid : IsValid a) where
  -- A frame may be replaced by another one that fits its place.
  pub set_frame-IsValid :
      (i : ℕ) (g : PhysicalFrame) → Fits i g → IsValid (record a { frames = set a.frames i g })
  set_frame-IsValid i g fit = record {
    frames_full = length-set a.frames i g ∙ valid.frames_full;
    map_full = valid.map_full;
    each = λ j f h. elim (Bool-cases ((i == j) && ltb i (length a.frames))) [
      | inl e ↦
          let p : i ≡ j = ground arith in
          let q : g ≡ f = ground (arith, get_elem?-set a.frames i j g) in subst₂ Fits p q fit
      | inr e ↦ valid.each j f (ground (arith, get_elem?-set a.frames i j g))
    ];
  }

  pub set_owner-IsValid :
      (i : ℕ) (o : Option ℕ) → IsValid (record a { allocation_map = set a.allocation_map i o })
  set_owner-IsValid i o = record {
    frames_full = valid.frames_full;
    map_full = length-set a.allocation_map i o ∙ valid.map_full;
    each = valid.each;
  }

  -- Freeing and injecting a flip do not panic, and keep the allocator valid.
  pub deallocate_page-IsValid : (i : ℕ) → IsValid (deallocate_page a i).1
  unfolding deallocate_page
  deallocate_page-IsValid i = elim (Bool-cases (leb total_pages i)) [
    | inl e ↦ rw e valid
    | inr e ↦ rw e (elim (Bool-cases (ltb i (length a.allocation_map))) [
      | inl h ↦ rw h (set_owner-IsValid i none)
      | inr h ↦ rw h valid
    ])
  ]

  pub deallocate_page-eq :
      (i : ℕ)
      → deallocate_page a i ≡ (
          if leb total_pages i
          then (err invalid_frame, a)
          else (ok tt, record a { allocation_map = set a.allocation_map i none }))
  unfolding deallocate_page
  deallocate_page-eq i = ground (arith, valid.map_full)

  pub deallocate_page_lem :
      (i : ℕ)
      → i < total_pages
      → deallocate_page a i ≡ (ok tt, record a { allocation_map = set a.allocation_map i none })
  unfolding deallocate_page
  deallocate_page_lem i h = ground (arith, valid.map_full)

  pub Fits-flip_bit : (i o k : ℕ) (f : PhysicalFrame) → Fits i f → Fits i (flip_bit f o k)
  unfolding flip_bit
  Fits-flip_bit i o k f h = record {
    valid = record { full = length-set f.words o _ ∙ h.valid.full; health = h.valid.health };
    at_index = h.at_index;
  }

  pub inject_bit_flip-IsValid : (i o k : ℕ) → IsValid (inject_bit_flip a i o k).1
  unfolding inject_bit_flip
  inject_bit_flip-IsValid i o k = elim (Bool-cases (leb total_pages i)) [
    | inl e ↦ rw e valid
    | inr e ↦ rw e (elim (Bool-cases (leb page_size o)) [
      | inl e' ↦ rw e' valid
      | inr e' ↦ rw e' (elim (Bool-cases (leb 16 k)) [
        | inl e'' ↦ rw e'' valid
        | inr e'' ↦ rw e'' (elim (Option-cases (get_elem? a.frames i)) [
          | inl no_frame ↦ rw no_frame valid
          | inr (f, h) ↦ rw h (set_frame-IsValid i _ (Fits-flip_bit i o k f (valid.each i f h)))
        ])
      ])
    ])
  ]

  -- A method that keeps a frame fit for its place keeps the allocator valid.
  pub on_frame-IsValid {ℓ κ} :
      {A : Type ℓ} {E : Type κ} (i : ℕ) (method : PhysicalFrame → Outcome A E × PhysicalFrame)
      → ((f : PhysicalFrame) → Fits i f → Fits i (method f).1)
      → IsValid (on_frame a i method).1
  unfolding on_frame
  on_frame-IsValid i method keep = elim (Option-cases (get_elem? a.frames i)) [
    | inl no_frame ↦ rw (no_frame, on_frame) valid
    | inr (f, h) ↦ rw (h, on_frame) (set_frame-IsValid i _ (keep f (valid.each i f h)))
  ]
