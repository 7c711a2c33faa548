-- ===== src/Input/Ring/Refine.antt =====
-- A ring buffer of `n` slots behaves as a queue that holds at most `n - 1` items.
use package.rustix_os.Prelude.{
  ℕ, suc, ◌+◌, ◌%◌, ◌<◌, ◌≡◌, ◌≢◌, refl, sym, ap, arith, Bool, true, false, ◌==◌, leb,
  if◌then◌else◌, none, some, List, [], ◌∷◌, ◌++◌, length, get_elem?, set, length-append, length-set,
  get_elem?-set_self, get_elem?-set_ne, get_elem?-some, length-replicate, dec_lt, ℕ_discrete,
}
use package.rustix_os.Outcome.{Outcome, ok, Error}
use package.rustix_os.Input.Ring.{RingBuffer, new, push, pop}
use package.rustix_os.Prelude.Ends.{
  get_elem?-end, get_elem?-append_last, get_elem?-append_ne, get_elem?-replicate,
}
use package.rustix_os.Prelude.Wrap.{wrap, wrap_lt, wrap_ne, wrap_room, wrap_next}
use native.Mathlib.Nat.{mod-eq_of_lt, mod-add-mod, add-zero}

module _ {ℓ} {A : Type ℓ} where
  -- The ring holds the queue `q`: its items stand in the slots from `tail` on, and the others are empty.
  pub record Holds (n : ℕ) (r : RingBuffer A) (q : List A) : Type ℓ where
    pub full : length r.slots ≡ n
    pub fits : length q < n
    pub starts : r.tail < n
    pub ends : r.head ≡ (r.tail + length q) % n
    pub each : (i : ℕ) → i < n → get_elem? r.slots ((r.tail + i) % n) ≡ some (get_elem? q i)

  -- A queue with room for `n - 1` items.
  abbrev pub enqueue : ℕ → A → List A → Bool × List A
  enqueue n x q = if leb n (length q + 1) then (false, q) else (true, q ++ x ∷ [])

  abbrev pub dequeue : A → List A → (Bool × A) × List A
  dequeue out [] = ((false, out), [])
  dequeue out (x ∷ q) = ((true, x), q)

  -- The code's answer is the queue's, and the ring after it holds the queue after it.
  pub record Agrees {κ} {B : Type κ} (n : ℕ) (r : Outcome B Error × RingBuffer A) (s : B × List A)
      : Type (ℓ ⊔ κ) where
    pub answers : r.0 ≡ ok s.0
    pub holds : Holds n r.1 s.1

  pub new-Holds : (n : ℕ) → 0 < n → Holds n (new n) []
  unfolding new
  new-Holds n h = record {
    full = length-replicate n none;
    fits = h;
    starts = h;
    ends = sym (mod-eq_of_lt h);
    each = λ i lt.
        let e : 0 + i ≡ i = omega arith in
        rw (e, mod-eq_of_lt lt) (get_elem?-replicate n none i lt);
  }

  pushed-Holds :
      {n : ℕ} {r : RingBuffer A} {q : List A} (x : A)
      → Holds n r q
      → length q + 1 < n
      → Holds n
          (record { slots = set r.slots r.head (some x); head = (r.head + 1) % n; tail = r.tail })
          (q ++ x ∷ [])
  pushed-Holds {n} {r} {q} x h lt = record {
    full = omega (arith, length-set r.slots r.head (some x), h.full);
    fits = omega (arith, length-append q (x ∷ []));
    starts = h.starts;
    ends = rw (length-append q (x ∷ []), h.ends, mod-add-mod) (ap (λ k. k % n) (omega arith));
    each = λ i below. elim (ℕ_discrete i (length q)) [
      | yes e ↦
          rw (e, get_elem?-append_last q x, ← h.ends)
            (get_elem?-set_self r.slots r.head (some x) (
              omega (
                arith,
                h.full,
                h.ends,
                wrap_lt n r.tail (length q) h.starts (omega (arith, h.fits)),
              )))
      | no ne ↦
          rw
            (
              get_elem?-append_ne q x i ne,
              get_elem?-set_ne r.slots {i = r.head} {j = (r.tail + i) % n} (some x) (
                  rw h.ends
                    (wrap_ne n r.tail (length q) i h.starts h.fits below (λ e. ne (sym e)))),
            )
            (h.each i below)
    ];
  }

  tail_ne :
      {n : ℕ} {r : RingBuffer A} {q : List A}
      → Holds n r q
      → (i : ℕ) → 0 < i
      → i < n
      → r.tail ≢ (r.tail + i) % n
  tail_ne {n} {r} h i pos lt e = ground (arith, wrap n r.tail i h.starts (omega arith), h.starts)

  popped-Holds :
      {n : ℕ} {r : RingBuffer A} {x : A} {q : List A}
      → Holds n r (x ∷ q)
      → Holds n
          (record { slots = set r.slots r.tail none; head = r.head; tail = (r.tail + 1) % n })
          q
  popped-Holds {n} {r} {x} {q} h = record {
    full = omega (arith, length-set r.slots r.tail none, h.full);
    fits = omega (arith, h.fits);
    starts = wrap_lt n r.tail 1 h.starts (omega (arith, h.fits));
    ends = rw (wrap_next n r.tail (length q)) h.ends;
    each = λ i below. elim (dec_lt (suc i) n) [
      | yes lt ↦
          rw
            (
              wrap_next n r.tail i,
              get_elem?-set_ne r.slots none (tail_ne h (suc i) (omega arith) lt),
            )
            (h.each (suc i) lt)
      | no ge ↦
          let same : (r.tail + suc i) % n ≡ r.tail =
            ground (arith, wrap n r.tail (suc i) h.starts (omega arith)) in
          rw (wrap_next n r.tail i, same, get_elem?-end q i (omega (arith, h.fits)))
            (get_elem?-set_self r.slots r.tail none (omega (arith, h.full, h.starts)))
    ];
  }

  -- `push` adds to the queue that the ring holds, or refuses when the queue holds `n - 1` items.
  pub push-Agrees :
      (n : ℕ) (item : A) (r : RingBuffer A) (q : List A)
      → Holds n r q
      → Agrees n (push n item r) (enqueue n item q)
  unfolding push
  push-Agrees n item r q h =
      let full = wrap_room n r.tail (length q) h.starts h.fits in
      let old = get_elem?-some r.slots r.head (
        omega
          (arith, h.full, h.ends, wrap_lt n r.tail (length q) h.starts (omega (arith, h.fits)))) in
      elim (dec_lt (length q + 1) n) [
        | yes lt ↦
            let e : ((r.head + 1) % n == r.tail) ≡ false = ground (arith, full, h.ends) in
            let e' : leb n (length q + 1) ≡ false = ground arith in
            rw (e, e', old.1) (record { answers = refl; holds = pushed-Holds item h lt })
        | no ge ↦
            let e : ((r.head + 1) % n == r.tail) ≡ true = ground (arith, full, h.ends) in
            let e' : leb n (length q + 1) ≡ true = ground arith in
            rw (e, e') (record { answers = refl; holds = h })
      ]

  pub pop-Agrees :
      (n : ℕ) (item_out : A) (r : RingBuffer A) (q : List A)
      → Holds n r q
      → Agrees n (pop n item_out r) (dequeue item_out q)
  unfolding pop
  pop-Agrees n item_out r [] h =
      let e : (r.head == r.tail) ≡ true = ground (arith, h.ends, mod-eq_of_lt h.starts) in
      rw e (record { answers = refl; holds = h })
  pop-Agrees n item_out r (x ∷ q) h =
      let ne = tail_ne h (suc (length q)) (omega arith) (omega (arith, h.fits)) in
      let e : (r.head == r.tail) ≡ false = ground (arith, h.ends, ne) in
      let first : get_elem? r.slots r.tail ≡ some (some x) =
        rw (add-zero, mod-eq_of_lt h.starts) at (h.each 0 (omega (arith, h.starts))) in
      rw (e, first) (record { answers = refl; holds = popped-Holds h })
