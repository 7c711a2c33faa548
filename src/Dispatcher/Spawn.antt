-- ===== src/Dispatcher/Spawn.antt =====
-- `spawn_process`: a process with its first page, or a logged failure.
use Prim.Native.String.{String}
use rustix_os.Prelude.{
  ℕ, ◌<◌, ◌≡◌, refl, arith, false, Bool, Option, none, some, [], ◌∷◌, ◌++◌, get_elem?, set,
}
use rustix_os.Outcome.{ok, err, spawn_out_of_memory}
use rustix_os.Allocator.{MemoryAllocator, total_pages, allocate_page}
use rustix_os.Allocator
use rustix_os.Allocator.Invariant
use rustix_os.Allocator.Invariant.{set_owner-IsValid}
use rustix_os.Allocator.Free.{
  is_free, Allocates, given, exhausted, allocate_page-Allocates, is_free→unowned,
}
use rustix_os.Dispatcher.{
  KernelProcess, TaskDispatcher, Run, new_process, log_event, register, spawn_process, spawned,
  spawn_failed,
}
use rustix_os.Dispatcher.Log.{IsValid, log_event-IsValid, processes-log_event, HasPages-append}

-- The two answers of `spawn_process` on a valid state: the new process stands last and owns the
-- frame that was allocated to it, or no frame is free and only the log has changed.
pub data Spawns (t : TaskDispatcher) (a : MemoryAllocator) (pid : ℕ) (name : String)
    (critical : Bool) : Run ℕ → Type 0 where
  spawned_on :
      (frame : ℕ) (p : KernelProcess) (t' : TaskDispatcher) (a' : MemoryAllocator)
      → frame < total_pages
      → p ≡ record {
        pid = pid;
        name = name;
        allocated_pages = frame ∷ [];
        is_critical = critical;
        instruction_step = 0;
      }
      → t'.processes ≡ t.processes ++ p ∷ []
      → get_elem? a.allocation_map frame ≡ some none
      → a' ≡ record a { allocation_map = set a.allocation_map frame (some pid) }
      → IsValid t'
      → Invariant.IsValid a'
      → Spawns t a pid name critical (ok pid, t', a')
  out_of_memory :
      (t' : TaskDispatcher)
      → ((j : ℕ) → j < total_pages → is_free a j ≡ false)
      → t'.processes ≡ t.processes
      → IsValid t'
      → Spawns t a pid name critical (err spawn_out_of_memory, t', a)

register-Spawns :
    (t : TaskDispatcher) (a : MemoryAllocator) (pid : ℕ) (name : String) (critical : Bool)
    {r : Allocator.Run (Option ℕ)}
    → IsValid t
    → Invariant.IsValid a
    → Allocates a pid r
    → Spawns t a pid name critical (register t (new_process pid name critical) r)
unfolding new_process
register-Spawns t a pid name critical h m (given frame lt free _) =
    let p : KernelProcess = record (new_process pid name critical) {
      allocated_pages = frame ∷ [];
    } in
    let t' : TaskDispatcher = record t { processes = t.processes ++ p ∷ [] } in
    let e = spawned name pid frame in
    spawned_on frame p (log_event t' e) _ lt refl (processes-log_event t' e)
      (is_free→unowned a frame free) refl
      (log_event-IsValid t' e
        (record { bounded = h.bounded; paged = HasPages-append t.processes p h.paged (lt, tt) }))
      (set_owner-IsValid m frame (some pid))
register-Spawns t a pid name critical h m (exhausted no_more) =
    out_of_memory (log_event t (spawn_failed name)) (λ j lt. no_more j (omega arith) lt)
      (processes-log_event t _) (log_event-IsValid t _ h)

-- Spawning on a valid state does not panic. Either the new process is registered last, at step 0,
-- with one page, a frame of the pool that nobody owned and that now belongs to its PID, or no
-- frame is free, and the error leaves the processes and the allocator as they were. Both leave a
-- valid state.
pub spawn_process-Spawns :
    (t : TaskDispatcher) (pid : ℕ) (name : String) (critical : Bool) (a : MemoryAllocator)
    → IsValid t
    → Invariant.IsValid a
    → Spawns t a pid name critical (spawn_process t pid name critical a)
unfolding spawn_process
spawn_process-Spawns t pid name critical a h m =
    register-Spawns t a pid name critical h m (allocate_page-Allocates a pid m)
