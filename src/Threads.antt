-- ===== src/Threads.antt =====
-- kernel-x86/src/scheduler.rs: the threads of the kernel and how one gives way to the next. The
-- address that the heap gives to a new stack is an argument; that it is filled with zeros is left
-- out, since a thread reads of its fresh stack only the context that `spawn` writes.
pub mod Context
pub mod Entry
pub mod RoundRobin
pub mod Start
use package.rustix_os.Prelude.{
  ℕ, ◌+◌, ◌-◌, ◌*◌, ◌%◌, Bool, leb, if◌then◌else◌, Option, none, some, List, [], ◌∷◌, ◌++◌, length,
  get_elem?, set,
}
use package.rustix_os.Outcome.{Outcome, ok, err, panic, Error, ◌>>=◌}
use package.rustix_os.Threads.Context.{Machine, Memory, store, switch_context}

abbrev pub max_threads : ℕ
max_threads = 4

abbrev pub stack_size : ℕ
stack_size = 8 * 1024

-- `size_of::<TaskContext>()`.
abbrev pub context_size : ℕ
context_size = 56

pub data ThreadStatus : Type 0 where
  ready running : ThreadStatus

-- `stack` is the address of the bytes of the stack, if the thread has its own.
pub record Thread : Type 0 where
  pub id : ℕ
  pub status : ThreadStatus
  pub stack : Option ℕ
  pub rsp : ℕ

pub record Scheduler : Type 0 where
  pub threads : List Thread
  pub current_thread_idx : ℕ

pub data SpawnError : Type 0 where
  maximum_thread_capacity_reached : SpawnError

abbrev pub new : Scheduler
new = record { threads = []; current_thread_idx = 0 }

unfoldable pub register_main_thread : Scheduler → Scheduler
register_main_thread s = record s {
  threads = s.threads ++ record { id = 0; status = running; stack = none; rsp = 0 } ∷ [];
}

-- `(stack_top & !15) - 8`.
abbrev pub aligned_stack_top : ℕ → ℕ
aligned_stack_top address = let stack_top = address + stack_size in stack_top - stack_top % 16 - 8

abbrev pub context_ptr : ℕ → ℕ
context_ptr address = aligned_stack_top address - context_size

-- The words of a `TaskContext`, from `r15` up to `rip`.
abbrev pub write_context : ℕ → ℕ → ℕ → Memory → Memory
write_context at_ptr rbp rip mem = store (at_ptr + 48) rip (
    store (at_ptr + 40) rbp (
      store (at_ptr + 32) 0 (
        store (at_ptr + 24) 0 (store (at_ptr + 16) 0 (store (at_ptr + 8) 0 (store at_ptr 0 mem))))))

unfoldable pub spawn : ℕ → ℕ → Scheduler → Memory → Outcome ℕ SpawnError × Scheduler × Memory
spawn entry_point address s mem =
    if leb max_threads (length s.threads) then (err maximum_thread_capacity_reached, s, mem) else (
      ok (length s.threads),
      record s {
        threads =
            s.threads
            ++ record {
              id = length s.threads;
              status = ready;
              stack = some address;
              rsp = context_ptr address;
            }
              ∷ [];
      },
      write_context (context_ptr address) (aligned_stack_top address) entry_point mem,
    )

abbrev pub at_index : Option Thread → Outcome Thread Error
at_index none = panic
at_index (some t) = ok t

-- A write to a field of `self.threads[i]`.
abbrev pub update_thread : ℕ → (Thread → Thread) → List Thread → Outcome (List Thread) Error
update_thread i change ts = do t ← at_index (get_elem? ts i); ok (set ts i (change t))

abbrev pub with_status : ThreadStatus → Thread → Thread
with_status status t = record t { status = status }

abbrev pub with_rsp : ℕ → Thread → Thread
with_rsp rsp t = record t { rsp = rsp }

abbrev pub switch_to : ℕ → ℕ → List Thread → Machine → Outcome (Scheduler × Machine) Error
switch_to old_idx next_idx ts m = do
  ts ← update_thread old_idx (with_status ready) ts
  ts ← update_thread next_idx (with_status running) ts
  next ← at_index (get_elem? ts next_idx)
  ts ← update_thread old_idx (with_rsp (switch_context next.rsp m).0) ts
  ok (record { threads = ts; current_thread_idx = next_idx }, (switch_context next.rsp m).1)

unfoldable pub thread_yield : Scheduler → Machine → Outcome (Scheduler × Machine) Error
unfolding switch_context
thread_yield s m =
    if leb (length s.threads) 1
    then ok (s, m)
    else switch_to s.current_thread_idx ((s.current_thread_idx + 1) % length s.threads) s.threads m
