-- ===== src/Threads/Entry.antt =====
-- What `spawn` lays down for the first switch to a new thread.
use package.rustix_os.Prelude.{
  ℕ, ◌+◌, ◌%◌, ◌≤◌, ◌<◌, ◌≡◌, refl, arith, false, leb, some, [], ◌∷◌, ◌++◌, length,
}
use package.rustix_os.Outcome.{ok}
use package.rustix_os.Threads.{
  ready, Thread, Scheduler, max_threads, stack_size, context_size, context_ptr, spawn,
}
use package.rustix_os.Threads.Context.{Machine, restore}

-- The first switch to a thread whose stack stands at `address`.
pub record Enters (entry_point address : ℕ) (m : Machine) : Type 0 where
  pub starts : m.rip ≡ entry_point
  pub frame : m.rbp ≡ m.rsp
  pub cleared : (m.rbx ≡ 0) × (m.r12 ≡ 0) × (m.r13 ≡ 0) × (m.r14 ≡ 0) × (m.r15 ≡ 0)
  pub aligned : m.rsp % 16 ≡ 8
  pub above : address + context_size ≤ m.rsp
  pub below : m.rsp < address + stack_size

-- With room for one more, `spawn` gives the new thread the next number and puts it last, ready. A
-- switch to the stack pointer that is stored for it starts at its entry point, with rbx and r12 to
-- r15 cleared and rbp at the stack pointer, on its own stack, whose pointer is 8 above a multiple of
-- 16, as a called function expects it; the context lies inside the stack.
pub spawn-Enters :
    (entry_point address : ℕ) (s : Scheduler) (m : Machine)
    → length s.threads < max_threads
    → let r = spawn entry_point address s m.memory in
      (r.0 ≡ ok (length s.threads))
      × ((t : Thread) × (r.1.threads ≡ s.threads ++ t ∷ [])
          × (t.id ≡ length s.threads)
          × (t.status ≡ ready)
          × Enters entry_point address (restore t.rsp (record m { memory = r.2 })))
unfolding spawn restore
spawn-Enters entry_point address s m h =
    let e : leb max_threads (length s.threads) ≡ false = ground arith in
    rw e (
      refl,
      (
        new_thread,
        refl,
        refl,
        refl,
        record {
          starts = ground arith;
          frame = ground arith;
          cleared = (ground arith, ground arith, ground arith, ground arith, ground arith);
          aligned = omega arith;
          above = omega arith;
          below = omega arith;
        },
      ),
    )
  where
    new_thread : Thread
    new_thread = record {
      id = length s.threads;
      status = ready;
      stack = some address;
      rsp = context_ptr address;
    }
