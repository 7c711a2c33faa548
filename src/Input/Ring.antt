-- ===== src/Input/Ring.antt =====
-- `RingBuffer<T, N>` of kernel-x86/src/interrupts.rs. `pop` writes to `item_out`: it gives back the
-- result with the value that `item_out` has after it.
pub mod Refine
pub mod Runs
use package.rustix_os.Prelude.{
  ℕ, ◌+◌, ◌%◌, Bool, true, false, ◌==◌, if◌then◌else◌, Option, none, some, List, get_elem?, set,
  replicate,
}
use package.rustix_os.Outcome.{Outcome, ok, panic, Error}

pub record RingBuffer {ℓ} (A : Type ℓ) : Type ℓ where
  pub slots : List (Option A)
  pub head : ℕ
  pub tail : ℕ

module _ {ℓ} {A : Type ℓ} (n : ℕ) where
  unfoldable pub new : RingBuffer A
  new = record { slots = replicate n none; head = 0; tail = 0 }

  -- `self.data[self.head] = Some(item)`.
  abbrev pub put_at_head : A → RingBuffer A → Option (Option A) → Outcome Bool Error × RingBuffer A
  put_at_head item r none = (panic, r)
  put_at_head item r (some old) = (
    ok true,
    record { slots = set r.slots r.head (some item); head = (r.head + 1) % n; tail = r.tail },
  )

  unfoldable pub push : A → RingBuffer A → Outcome Bool Error × RingBuffer A
  push item r =
      if (r.head + 1) % n == r.tail
      then (ok false, r)
      else put_at_head item r (get_elem? r.slots r.head)

  -- `self.data[self.tail].take()`.
  abbrev pub take_from_tail :
      A → RingBuffer A → Option (Option A) → Outcome (Bool × A) Error × RingBuffer A
  take_from_tail item_out r none = (panic, r)
  take_from_tail item_out r (some none) =
      (ok (false, item_out), record r { slots = set r.slots r.tail none })
  take_from_tail item_out r (some (some item)) = (
    ok (true, item),
    record { slots = set r.slots r.tail none; head = r.head; tail = (r.tail + 1) % n },
  )

  unfoldable pub pop : A → RingBuffer A → Outcome (Bool × A) Error × RingBuffer A
  pop item_out r =
      if r.head == r.tail
      then (ok (false, item_out), r)
      else take_from_tail item_out r (get_elem? r.slots r.tail)
