-- ===== src/Input/Ring/Runs.antt =====
-- A whole run of a ring buffer, against the same run of a bounded queue.
use package.rustix_os.Prelude.{ℕ, ◌<◌, ◌≡◌, refl, Bool, List, [], ◌∷◌, map}
use mathlib.Core.Path.{ap₂}
use package.rustix_os.Outcome.{Outcome, ok, err, panic, Error}
use package.rustix_os.Input.Ring.{RingBuffer, new, push, pop}
use package.rustix_os.Input.Ring.Refine.{
  Holds, enqueue, dequeue, Agrees, new-Holds, push-Agrees, pop-Agrees,
}

-- A call, `pops` with the value that `item_out` has before it.
pub data Op {ℓ} (A : Type ℓ) : Type ℓ where
  pushes : A → Op A
  pops : A → Op A

pub data Answer {ℓ} (A : Type ℓ) : Type ℓ where
  pushed : Bool → Answer A
  popped : Bool → A → Answer A

module _ {ℓ} {A : Type ℓ} where
  abbrev answer {κ μ} :
      {B : Type κ} {S : Type μ}
      → (B → Answer A)
      → Outcome B Error × S
      → Outcome (Answer A) Error × S
  answer f (ok b, s) = (ok (f b), s)
  answer f (err e, s) = (err e, s)
  answer f (panic, s) = (panic, s)

  abbrev pub serve : ℕ → Op A → RingBuffer A → Outcome (Answer A) Error × RingBuffer A
  serve n (pushes item) r = answer pushed (push n item r)
  serve n (pops item_out) r = answer (λ b. popped b.0 b.1) (pop n item_out r)

  abbrev pub serve_all : ℕ → List (Op A) → RingBuffer A → List (Outcome (Answer A) Error)
  serve_all n [] r = []
  serve_all n (o ∷ os) r = (serve n o r).0 ∷ serve_all n os (serve n o r).1

  abbrev pub queue_serve : ℕ → Op A → List A → Answer A × List A
  queue_serve n (pushes item) q = (pushed (enqueue n item q).0, (enqueue n item q).1)
  queue_serve n (pops item_out) q = let d = dequeue item_out q in (popped d.0.0 d.0.1, d.1)

  abbrev pub queue_serve_all : ℕ → List (Op A) → List A → List (Answer A)
  queue_serve_all n [] q = []
  queue_serve_all n (o ∷ os) q = (queue_serve n o q).0 ∷ queue_serve_all n os (queue_serve n o q).1

  answer-Agrees {κ} :
      {B : Type κ} {n : ℕ} {r : Outcome B Error × RingBuffer A} {s : B × List A} (f : B → Answer A)
      → Agrees n r s
      → Agrees n (answer f r) (f s.0, s.1)
  answer-Agrees {r = (ok b, r)} f h = record { answers = cc; holds = h.holds }
  answer-Agrees {r = (err e, r)} f h = absurd cc
  answer-Agrees {r = (panic, r)} f h = absurd cc

  serve-Agrees :
      (n : ℕ) (o : Op A) (r : RingBuffer A) (q : List A)
      → Holds n r q
      → Agrees n (serve n o r) (queue_serve n o q)
  serve-Agrees n (pushes item) r q h = answer-Agrees pushed (push-Agrees n item r q h)
  serve-Agrees n (pops item_out) r q h =
      answer-Agrees (λ b. popped b.0 b.1) (pop-Agrees n item_out r q h)

  serve_all-queue :
      (n : ℕ) (ops : List (Op A)) (r : RingBuffer A) (q : List A)
      → Holds n r q
      → serve_all n ops r ≡ map ok (queue_serve_all n ops q)
  serve_all-queue n [] r q h = refl
  serve_all-queue n (o ∷ os) r q h =
      let a = serve-Agrees n o r q h in ap₂ ◌∷◌ a.answers (serve_all-queue n os _ _ a.holds)

  -- Whatever is pushed and popped, and in whatever order, a new ring buffer of `n` slots gives the
  -- answers of an empty queue that holds at most `n - 1` items, and never panics.
  pub serve_all-new :
      (n : ℕ) (ops : List (Op A))
      → 0 < n
      → serve_all n ops (new n) ≡ map ok (queue_serve_all n ops [])
  serve_all-new n ops pos = serve_all-queue n ops (new n) [] (new-Holds n pos)
