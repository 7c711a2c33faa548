-- ===== src/ThreadsTests.antt =====
-- Threads: the theorems at concrete inputs.
use rustix_os.Prelude.{ℕ, ◌+◌, ◌<◌, ◌≡◌, ◌≢◌, inl, refl, arith, leb, if◌then◌else◌, [], ◌∷◌, length}
use rustix_os.Outcome.{ok, Yields}
use rustix_os.Threads.{
  ready, Thread, Scheduler, new, register_main_thread, spawn, max_threads, thread_yield,
}
use rustix_os.Threads.Context.{Machine, Memory, restore, save, switch_context}
use rustix_os.Threads.Context.Resume.{SameRegisters, switch_context-SameRegisters}
use rustix_os.Threads.Entry.{Enters, spawn-Enters}
use rustix_os.Threads.RoundRobin.{
  IsScheduled, Yielded, RunsAt, yields, thread_yield-Yields, yields-everyone,
}
use rustix_os.Threads.Start.{register_main_thread-IsScheduled, spawn-IsScheduled}

abbrev empty_memory : Memory
empty_memory = λ a. 0

-- The machine of a thread whose stack pointer is at `rsp`.
abbrev machine : ℕ → Machine
machine rsp = record {
  r15 = 1;
  r14 = 2;
  r13 = 3;
  r12 = 4;
  rbx = 5;
  rbp = 6;
  rsp = rsp;
  rip = 7;
  memory = empty_memory;
}

-- The first thread and one more.
abbrev two_threads : Scheduler
two_threads = (spawn 4096 100000 (register_main_thread new) empty_memory).1

spawn-IsScheduled_example :
    IsScheduled two_threads
    × (length two_threads.threads ≡ (
        if leb max_threads (length (register_main_thread new).threads)
        then length (register_main_thread new).threads
        else length (register_main_thread new).threads + 1))
spawn-IsScheduled_example =
    spawn-IsScheduled 4096 100000 (register_main_thread new) empty_memory
      register_main_thread-IsScheduled

two_threads-IsScheduled : IsScheduled two_threads
two_threads-IsScheduled =
    (spawn-IsScheduled 4096 100000 (register_main_thread new) empty_memory
      register_main_thread-IsScheduled).0

thread_yield-Yields_example : Yields (Yielded two_threads) (thread_yield two_threads (machine 5000))
thread_yield-Yields_example = thread_yield-Yields two_threads (machine 5000) two_threads-IsScheduled

two_threads_lem : 1 < length two_threads.threads
unfolding spawn register_main_thread
two_threads_lem = omega arith

second_waits : 1 ≢ two_threads.current_thread_idx
unfolding spawn register_main_thread
second_waits = λ e. absurd (omega arith)

yields-everyone_example :
    (k : ℕ) × (0 < k)
    × (k < length two_threads.threads)
    × Yields
        (RunsAt (length two_threads.threads) 1)
        (yields (λ k m. m) k (two_threads, machine 5000))
yields-everyone_example =
    yields-everyone 1 two_threads (machine 5000) (λ k m. m) two_threads-IsScheduled two_threads_lem
      second_waits

spawn-Enters_example :
    let r = spawn 4096 100000 new (machine 5000).memory in
    (r.0 ≡ ok 0)
    × ((t : Thread) × (r.1.threads ≡ t ∷ [])
        × (t.id ≡ 0)
        × (t.status ≡ ready)
        × Enters 4096 100000 (restore t.rsp (record (machine 5000) { memory = r.2 })))
spawn-Enters_example = spawn-Enters 4096 100000 new (machine 5000) (omega arith)

switch_context-SameRegisters_example :
    SameRegisters
      (machine 5000)
      (switch_context
        (switch_context 9000 (machine 5000)).0
        (record (machine 9100) { memory = (save (machine 5000)).memory })).1
unfolding switch_context
switch_context-SameRegisters_example =
    switch_context-SameRegisters (machine 5000)
      (record (machine 9100) { memory = (save (machine 5000)).memory }) 9000 (omega arith)
      (omega arith) (inl (omega arith)) (λ a low high. refl)
