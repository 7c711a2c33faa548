-- ===== src/Core.antt =====
-- kernel-core/src/bootstrap.rs: the state of the kernel as a whole, and its tick. What is printed to
-- the serial port is left out, and `Cpu::halt` changes nothing here; the counters count without
-- wrapping. `debug` is the `Debug` of the value that is voted on.
pub mod Boot
pub mod Valid
pub mod Reach
use Prim.Native.Nat.{bit_xor}
use Prim.Native.String.{String}
use package.rustix_os.Prelude.{
  ℕ, zero, suc, ◌+◌, ◌*◌, ◌%◌, ◌^◌, Bool, true, false, ◌&&◌, ◌==◌, if◌then◌else◌, Option, none,
  some, List, [], ◌∷◌, length, map,
}
use package.rustix_os.Outcome.{Outcome, ok, err, panic, Error, ◌>>=◌}
use package.rustix_os.Frame.{CorrectionEvent}
use package.rustix_os.Allocator.{MemoryAllocator, inject_bit_flip}
use package.rustix_os.Scrubber.{ScrubReport, sweep}
use package.rustix_os.Dispatcher
use package.rustix_os.Dispatcher.{
  TaskDispatcher, log_event, execute_step, execute_critical_tmr, scrub_repair, scrub_relocated,
  injected_bit,
}
use package.rustix_os.Vfs.Inode.{VirtualFileSystem}

pub record SystemCore : Type 0 where
  pub allocator : MemoryAllocator
  pub dispatcher : TaskDispatcher
  pub vfs : VirtualFileSystem
  pub scrubber_sweeps : ℕ
  pub ecc_single_bit_corrections : ℕ
  pub pages_quarantined : ℕ
  pub pages_relocated : ℕ
  pub critical_tmr_ops : ℕ
  pub tmr_voter_corrections : ℕ

-- An error of a step is dropped.
abbrev pub next_step :
    (TaskDispatcher → MemoryAllocator → Outcome (TaskDispatcher × MemoryAllocator) Error)
    → Dispatcher.Run (Unit {0})
    → Outcome (TaskDispatcher × MemoryAllocator) Error
next_step next (ok u, t, a) = next t a
next_step next (err e, t, a) = next t a
next_step next (panic, t, a) = panic

-- The loop over the PIDs that were there at the start of the tick.
unfoldable pub step_all :
    List ℕ → TaskDispatcher → MemoryAllocator → Outcome (TaskDispatcher × MemoryAllocator) Error
step_all [] t a = ok (t, a)
step_all (pid ∷ pids) t a = next_step (λ t' a'. step_all pids t' a') (execute_step t pid a)

unfoldable pub log_corrections : List CorrectionEvent → TaskDispatcher → TaskDispatcher
log_corrections [] t = t
log_corrections (c ∷ cs) t = log_corrections cs (log_event t (scrub_repair c.frame_index c.offset))

unfoldable pub log_relocations : List (ℕ × ℕ) → TaskDispatcher → TaskDispatcher
log_relocations [] t = t
log_relocations ((old, fresh) ∷ rs) t = log_relocations rs (log_event t (scrub_relocated old fresh))

unfoldable pub update_metrics_from_scrub : SystemCore → ScrubReport → SystemCore
unfolding log_corrections log_relocations
update_metrics_from_scrub core report = record core {
  ecc_single_bit_corrections = core.ecc_single_bit_corrections + length report.corrections;
  pages_quarantined = core.pages_quarantined + length report.relocations;
  pages_relocated = core.pages_relocated + length report.relocations;
  dispatcher =
      log_relocations report.relocations (log_corrections report.corrections core.dispatcher);
}

-- The calculation of one runner; in every fifth operation a bit flips in runner 1.
unfoldable pub delta_v : Bool → ℕ → ℕ
delta_v should_flip runner =
    let val : ℕ = 7500 * 3 in if should_flip && runner == 1 then bit_xor val (2 ^ 5) else val

abbrev pub should_flip : ℕ → Bool
should_flip ops = ops % 5 == 0

module _ (debug : ℕ → String) where
  unfoldable pub execute_orbital_calculation : SystemCore → SystemCore
  unfolding execute_critical_tmr delta_v
  execute_orbital_calculation core =
      let ops = core.critical_tmr_ops + 1 in
      let flip = should_flip ops in
      record core {
        critical_tmr_ops = ops;
        dispatcher =
            (execute_critical_tmr ◌==◌ debug core.dispatcher "Orbital Navigation Delta-V"
              (delta_v flip)).1;
        tmr_voter_corrections =
            if flip then core.tmr_voter_corrections + 1 else core.tmr_voter_corrections;
      }

  -- What follows the sweep.
  abbrev pub after_sweep :
      SystemCore → Outcome ScrubReport Error × MemoryAllocator → Outcome SystemCore Error
  after_sweep core (ok report, a) = ok (
      execute_orbital_calculation
        (update_metrics_from_scrub (record core { allocator = a }) report))
  after_sweep core (err e, a) = err e
  after_sweep core (panic, a) = panic

  unfoldable pub tick : SystemCore → Outcome SystemCore Error
  unfolding step_all sweep update_metrics_from_scrub execute_orbital_calculation
  tick core = do
    s ← step_all (map (λ p. p.pid) core.dispatcher.processes) core.dispatcher core.allocator
    after_sweep
        (record core {
          dispatcher = s.0;
          allocator = s.1;
          scrubber_sweeps = core.scrubber_sweeps + 1;
        })
        (sweep s.1)

-- `inject_memory_flip`.
unfoldable pub inject_memory_flip : SystemCore → ℕ → ℕ → ℕ → Outcome (Unit {0}) Error × SystemCore
unfolding inject_bit_flip log_event
inject_memory_flip core frame offset bit =
    let (r, a) = inject_bit_flip core.allocator frame offset bit in
    elim r [
      | ok u ↦ (
        ok tt,
        record core {
          allocator = a;
          dispatcher = log_event core.dispatcher (injected_bit bit frame offset);
        },
      )
      | err e ↦ (err e, record core { allocator = a })
      | panic ↦ (panic, record core { allocator = a })
    ]
