-- ===== src/Core/Valid.antt =====
-- The invariant of the kernel's state, and the tick that keeps it.
use Prim.Native.String.{String}
use mathlib.Core.Path.{subst}
use rustix_os.Prelude.{ℕ, ◌+◌, ◌≡◌, refl, arith, List, [], ◌∷◌, length, map, inl, inr}
use rustix_os.Outcome.{Outcome, ok, err, panic, Error, Outcome-cases, Yields, >>=-Yields}
use rustix_os.Frame.{CorrectionEvent}
use rustix_os.Allocator
use rustix_os.Allocator.{MemoryAllocator}
use rustix_os.Allocator.Invariant
use rustix_os.Allocator.Invariant.{inject_bit_flip-IsValid}
use rustix_os.Allocator.Safe.{Returned, Any, inject_bit_flip-Returned}
use rustix_os.Scrubber.{ScrubReport, sweep}
use rustix_os.Scrubber.Page.{Finished}
use rustix_os.Scrubber.Sweep.{sweep-Finished}
use rustix_os.Dispatcher
use rustix_os.Dispatcher.{
  TaskDispatcher, LogEvent, log_event, log_status, execute_step, execute_critical_tmr,
}
use rustix_os.Dispatcher.Log
use rustix_os.Dispatcher.Log.{log_event-IsValid, processes-log_event}
use rustix_os.Dispatcher.Step.{Keeps, execute_step-Keeps}
use rustix_os.Tmr.{TmrStatus, perfect, corrected, failed}
use rustix_os.Vfs.Closed.{IsClosed}
use rustix_os.Core.{
  SystemCore, next_step, step_all, log_corrections, log_relocations, update_metrics_from_scrub,
  execute_orbital_calculation, after_sweep, tick, inject_memory_flip,
}

pub record IsValid (core : SystemCore) : Type 0 where
  pub memory : Invariant.IsValid core.allocator
  pub kernel : Log.IsValid core.dispatcher
  pub tree : IsClosed core.vfs

-- The dispatcher is valid and has `n` processes.
pub record Holds (n : ℕ) (t : TaskDispatcher) : Type 0 where
  pub valid : Log.IsValid t
  pub size : length t.processes ≡ n

pub log_event-Holds :
    {n : ℕ} (t : TaskDispatcher) (e : LogEvent) → Holds n t → Holds n (log_event t e)
log_event-Holds t e h = record {
  valid = log_event-IsValid t e h.valid;
  size = rw (processes-log_event t e) h.size;
}

log_corrections-Holds :
    {n : ℕ} (cs : List CorrectionEvent) (t : TaskDispatcher)
    → Holds n t
    → Holds n (log_corrections cs t)
unfolding log_corrections
log_corrections-Holds [] t h = h
log_corrections-Holds (c ∷ cs) t h = log_corrections-Holds cs _ (log_event-Holds t _ h)

log_relocations-Holds :
    {n : ℕ} (rs : List (ℕ × ℕ)) (t : TaskDispatcher) → Holds n t → Holds n (log_relocations rs t)
unfolding log_relocations
log_relocations-Holds [] t h = h
log_relocations-Holds ((old, fresh) ∷ rs) t h = log_relocations-Holds rs _ (log_event-Holds t _ h)

log_status-Holds :
    {n : ℕ} (t : TaskDispatcher) (name : String) (s : TmrStatus)
    → Holds n t
    → Holds n (log_status t name s)
log_status-Holds t name perfect h = log_event-Holds t _ h
log_status-Holds t name (corrected runner faulty majority) h = log_event-Holds t _ h
log_status-Holds t name failed h = log_event-Holds t _ h

-- What the steps of a tick leave.
pub record Stepped (n : ℕ) (s : TaskDispatcher × MemoryAllocator) : Type 0 where
  pub kernel : Holds n s.0
  pub memory : Invariant.IsValid s.1

next_step-Yields :
    {n : ℕ}
    (next : TaskDispatcher → MemoryAllocator → Outcome (TaskDispatcher × MemoryAllocator) Error)
    (r : Dispatcher.Run (Unit {0}))
    → Keeps (λ (u : Unit {0}). Unit {0}) n r
    → ((t : TaskDispatcher) (a : MemoryAllocator)
        → Holds n t
        → Invariant.IsValid a
        → Yields (Stepped n) (next t a))
    → Yields (Stepped n) (next_step next r)
next_step-Yields next (ok u, t, a) h k =
    k t a (record { valid = h.dispatcher; size = h.size }) h.memory
next_step-Yields next (err e, t, a) h k =
    k t a (record { valid = h.dispatcher; size = h.size }) h.memory
next_step-Yields next (panic, t, a) h k = absurd h.returned

step_all-Yields :
    (n : ℕ) (pids : List ℕ) (t : TaskDispatcher) (a : MemoryAllocator)
    → Holds n t
    → Invariant.IsValid a
    → Yields (Stepped n) (step_all pids t a)
unfolding step_all
step_all-Yields n [] t a h m = record { kernel = h; memory = m }
step_all-Yields n (pid ∷ pids) t a h m =
    next_step-Yields (λ t' a'. step_all pids t' a') (execute_step t pid a)
      (rw (← h.size) (execute_step-Keeps t pid a h.valid m))
      (λ t' a' h' m'. step_all-Yields n pids t' a' h' m')

-- What a tick leaves of `core`.
pub record Ticked (core core' : SystemCore) : Type 0 where
  pub valid : IsValid core'
  pub services : length core'.dispatcher.processes ≡ length core.dispatcher.processes
  pub files : core'.vfs ≡ core.vfs
  pub sweeps : core'.scrubber_sweeps ≡ core.scrubber_sweeps + 1
  pub operations : core'.critical_tmr_ops ≡ core.critical_tmr_ops + 1

module _ (debug : ℕ → String) where
  after_sweep-Yields :
      (core b : SystemCore) (r : Outcome ScrubReport Error × MemoryAllocator)
      → IsClosed core.vfs
      → Holds (length core.dispatcher.processes) b.dispatcher
      → b.vfs ≡ core.vfs
      → b.scrubber_sweeps ≡ core.scrubber_sweeps + 1
      → b.critical_tmr_ops ≡ core.critical_tmr_ops
      → Finished r.0
      → Invariant.IsValid r.1
      → Yields (Ticked core) (after_sweep debug b r)
  unfolding update_metrics_from_scrub execute_orbital_calculation execute_critical_tmr
  after_sweep-Yields core b (ok report, a) tree h same sweeps ops done m =
      let logged =
        log_relocations-Holds report.relocations _
          (log_corrections-Holds report.corrections b.dispatcher h) in
      let voted = log_status-Holds _ "Orbital Navigation Delta-V" _ (log_event-Holds _ _ logged) in
      record {
        valid = record { memory = m; kernel = voted.valid; tree = rw same tree };
        services = voted.size;
        files = same;
        sweeps = sweeps;
        operations = omega (arith, ops);
      }
  after_sweep-Yields core b (err e, a) tree h same sweeps ops done m = absurd done
  after_sweep-Yields core b (panic, a) tree h same sweeps ops done m = absurd done

  -- A tick of a valid kernel succeeds, whatever bits have flipped in its memory: the number of
  -- processes and the table of inodes stay, the sweep and the critical operation are counted, and the state is valid again.
  pub tick-Ticked : (core : SystemCore) → IsValid core → Yields (Ticked core) (tick debug core)
  unfolding tick
  tick-Ticked core v =
      >>=-Yields (Stepped (length core.dispatcher.processes)) (Ticked core)
        (step_all (map (λ p. p.pid) core.dispatcher.processes) core.dispatcher core.allocator) _
        (step_all-Yields (length core.dispatcher.processes)
          (map (λ p. p.pid) core.dispatcher.processes) core.dispatcher core.allocator
          (record { valid = v.kernel; size = refl }) v.memory)
        (λ s h.
          let swept = sweep-Finished s.1 h.memory in
          after_sweep-Yields core
            (record core {
              dispatcher = s.0;
              allocator = s.1;
              scrubber_sweeps = core.scrubber_sweeps + 1;
            })
            (sweep s.1) v.tree h.kernel refl refl refl swept.0 swept.1)

pub inject_memory_flip-IsValid :
    (core : SystemCore) (frame offset bit : ℕ)
    → IsValid core
    → IsValid (inject_memory_flip core frame offset bit).1
unfolding inject_memory_flip
inject_memory_flip-IsValid core frame offset bit v =
    let r = Allocator.inject_bit_flip core.allocator frame offset bit in
    let m = inject_bit_flip-IsValid v.memory frame offset bit in
    elim (Outcome-cases r.0) [
      | inl p ↦ rw (p, inject_memory_flip) (record { memory = m; kernel = v.kernel; tree = v.tree })
      | inr (inl (e, p)) ↦
          rw (p, inject_memory_flip) (record { memory = m; kernel = v.kernel; tree = v.tree })
      | inr (inr (u, p)) ↦
          rw (p, inject_memory_flip)
            (record {
              memory = m;
              kernel = log_event-IsValid core.dispatcher _ v.kernel;
              tree = v.tree;
            })
    ]

pub inject_memory_flip-Returned :
    (core : SystemCore) (frame offset bit : ℕ)
    → IsValid core
    → Returned Any (inject_memory_flip core frame offset bit).0
unfolding inject_memory_flip
inject_memory_flip-Returned core frame offset bit v =
    let r = Allocator.inject_bit_flip core.allocator frame offset bit in
    elim (Outcome-cases r.0) [
      | inl p ↦ absurd (
          subst (Returned Any) p
            (inject_bit_flip-Returned core.allocator frame offset bit v.memory))
      | inr (inl (e, p)) ↦ rw (p, inject_memory_flip) tt
      | inr (inr (u, p)) ↦ rw (p, inject_memory_flip) tt
    ]
