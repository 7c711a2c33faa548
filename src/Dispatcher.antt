-- ===== src/Dispatcher.antt =====
-- scheduler/src/dispatcher.rs: processes that write and read their pages, and the hot swap of a
-- damaged page. A line of the log is the constructor of its format string with its arguments.
-- `instruction_step` counts without wrapping: the offset and the value are taken modulo divisors of
-- 2 ^ 64, so a wrapped product gives the same.
pub mod Log
pub mod Step
pub mod Spawn
use Prim.Native.String.{String}
use package.rustix_os.Prelude.{
  ℕ, zero, suc, ◌+◌, ◌-◌, ◌*◌, ◌%◌, ◌^◌, Bool, ltb, leb, ◌==◌, if◌then◌else◌, Option, none, some,
  List, [], ◌∷◌, ◌++◌, length, get_elem?, set,
}
use package.rustix_os.Outcome.{
  Outcome, ok, err, panic, Error, spawn_out_of_memory, process_not_found, no_memory_allocated,
  retry_read_failed,
}
use package.rustix_os.Frame.{CorrectionEvent, ReadResult, page_size, write_byte, read_byte}
use package.rustix_os.Allocator.{MemoryAllocator, allocate_page, on_frame, relocate_and_quarantine}
use package.rustix_os.Tmr.{TmrStatus, TmrResult, perfect, corrected, failed, execute_redundant}

pub record KernelProcess : Type 0 where
  pub pid : ℕ
  pub name : String
  pub allocated_pages : List ℕ
  pub is_critical : Bool
  pub instruction_step : ℕ

pub data LogEvent : Type 0 where
  initialized : LogEvent
  spawned : String → ℕ → ℕ → LogEvent
  spawn_failed : String → LogEvent
  exec_write : String → ℕ → ℕ → ℕ → ℕ → LogEvent
  write_fault : ℕ → Error → LogEvent
  ecc_repair : ℕ → ℕ → ℕ → LogEvent
  read_verify : ℕ → ℕ → ℕ → LogEvent
  critical_fault : ℕ → ℕ → ℕ → LogEvent
  resumed : ℕ → ℕ → ℕ → LogEvent
  hot_swap : ℕ → ℕ → ℕ → LogEvent
  tmr_active tmr_success tmr_failure : String → LogEvent
  tmr_warning : ℕ → String → String → LogEvent
  -- kernel-core logs these.
  scrub_repair scrub_relocated : ℕ → ℕ → LogEvent
  injected_bit : ℕ → ℕ → ℕ → LogEvent

pub record TaskDispatcher : Type 0 where
  pub processes : List KernelProcess
  pub event_logs : List LogEvent

abbrev pub Run : Type 0 → Type 0
Run A = Outcome A Error × TaskDispatcher × MemoryAllocator

-- `KernelProcess::new`.
unfoldable pub new_process : ℕ → String → Bool → KernelProcess
new_process pid name is_critical = record {
  pid = pid;
  name = name;
  allocated_pages = [];
  is_critical = is_critical;
  instruction_step = 0;
}

unfoldable pub new : TaskDispatcher
new = record { processes = []; event_logs = initialized ∷ [] }

-- `event_logs.remove(0)` of a log that is not empty.
abbrev pub forget_first {ℓ} : {A : Type ℓ} → List A → List A
forget_first [] = []
forget_first (x ∷ xs) = xs

unfoldable pub log_event : TaskDispatcher → LogEvent → TaskDispatcher
log_event t e =
    let kept = if leb 100 (length t.event_logs) then forget_first t.event_logs else t.event_logs in
    record t { event_logs = kept ++ e ∷ [] }

abbrev pub register :
    TaskDispatcher → KernelProcess → Outcome (Option ℕ) Error × MemoryAllocator → Run ℕ
register t p (ok (some frame), a) =
    let t' = record t {
      processes = t.processes ++ record p { allocated_pages = frame ∷ [] } ∷ [];
    } in
    (ok p.pid, log_event t' (spawned p.name p.pid frame), a)
register t p (ok none, a) = (err spawn_out_of_memory, log_event t (spawn_failed p.name), a)
register t p (err e, a) = (err e, t, a)
register t p (panic, a) = (panic, t, a)

unfoldable pub spawn_process : TaskDispatcher → ℕ → String → Bool → MemoryAllocator → Run ℕ
unfolding new_process
spawn_process t pid name is_critical a =
    register t (new_process pid name is_critical) (allocate_page a pid)

-- `processes.iter().position(|p| p.pid == pid)`.
unfoldable pub position : ℕ → List KernelProcess → Option ℕ
position pid [] = none
position pid (p ∷ ps) =
    let rest = position pid ps in
    if p.pid == pid then some 0 else elim rest [ none ↦ none | some i ↦ some (i + 1) ]

-- `if let Some(pos) = pages.iter().position(|&x| x == old) { pages[pos] = new }`.
unfoldable pub swap_page : ℕ → ℕ → List ℕ → List ℕ
swap_page old fresh [] = []
swap_page old fresh (x ∷ xs) = if x == old then fresh ∷ xs else x ∷ swap_page old fresh xs

abbrev pub set_process : TaskDispatcher → ℕ → KernelProcess → TaskDispatcher
set_process t i p = record t { processes = set t.processes i p }

abbrev pub swapped :
    TaskDispatcher → ℕ → KernelProcess → ℕ → Outcome ℕ Error × MemoryAllocator → Run ℕ
swapped t i p damaged (ok fresh, a) =
    let p' = record p { allocated_pages = swap_page damaged fresh p.allocated_pages } in
    (ok fresh, log_event (set_process t i p') (hot_swap damaged p.pid fresh), a)
swapped t i p damaged (err e, a) = (err e, t, a)
swapped t i p damaged (panic, a) = (panic, t, a)

unfoldable pub handle_fault : TaskDispatcher → ℕ → ℕ → MemoryAllocator → Run ℕ
unfolding swap_page
handle_fault t i damaged a = elim (get_elem? t.processes i) [
  | none ↦ (panic, t, a)
  | some p ↦ swapped t i p damaged (relocate_and_quarantine a damaged)
]

abbrev pub put_first :
    TaskDispatcher → ℕ → KernelProcess → ℕ → MemoryAllocator → List ℕ → Run (Unit {0})
put_first t i p fresh a [] = (panic, t, a)
put_first t i p fresh a (x ∷ xs) =
    (ok tt, set_process t i (record p { allocated_pages = fresh ∷ xs }), a)

-- `processes[i].allocated_pages[0] = fresh`.
abbrev pub set_first_page : TaskDispatcher → ℕ → ℕ → MemoryAllocator → Run (Unit {0})
set_first_page t i fresh a = elim (get_elem? t.processes i) [
  | none ↦ (panic, t, a)
  | some p ↦ put_first t i p fresh a p.allocated_pages
]

abbrev pub after_retry_write :
    TaskDispatcher → ℕ → ℕ → Outcome (Unit {0}) Error × MemoryAllocator → Run (Unit {0})
after_retry_write t i fresh (ok u, a) = set_first_page t i fresh a
after_retry_write t i fresh (err e, a) = (err e, t, a)
after_retry_write t i fresh (panic, a) = (panic, t, a)

-- The write that failed, again on the frame that the page was moved to.
abbrev pub retry_write : ℕ → ℕ → ℕ → Run ℕ → Run (Unit {0})
retry_write i offset value (ok fresh, t, a) =
    after_retry_write t i fresh (on_frame a fresh (λ f. write_byte f offset value))
retry_write i offset value (err e, t, a) = (err e, t, a)
retry_write i offset value (panic, t, a) = (panic, t, a)

-- `processes[i].instruction_step = step`.
abbrev pub save_step : TaskDispatcher → ℕ → ℕ → MemoryAllocator → Run (Unit {0})
save_step t i step a = elim (get_elem? t.processes i) [
  | none ↦ (panic, t, a)
  | some p ↦ (ok tt, set_process t i (record p { instruction_step = step }), a)
]

abbrev pub after_retry_read :
    TaskDispatcher → ℕ → ℕ → ℕ → ℕ → ReadResult × MemoryAllocator → Run (Unit {0})
after_retry_read t i pid step fresh (ok (v, event), a) =
    save_step (log_event t (resumed pid fresh v)) i step a
after_retry_read t i pid step fresh (err damaged, a) = (err retry_read_failed, t, a)
after_retry_read t i pid step fresh (panic, a) = (panic, t, a)

-- The read that failed, again on the frame that the page was moved to.
abbrev pub retry_read : ℕ → ℕ → ℕ → ℕ → Run ℕ → Run (Unit {0})
retry_read i pid step o (ok fresh, t, a) =
    after_retry_read t i pid step fresh (on_frame a fresh (λ f. read_byte f o))
retry_read i pid step o (err e, t, a) = (err e, t, a)
retry_read i pid step o (panic, t, a) = (panic, t, a)

abbrev pub log_repair : TaskDispatcher → Option CorrectionEvent → TaskDispatcher
log_repair t none = t
log_repair t (some e) = log_event t (ecc_repair e.frame_index e.offset e.bit_position)

abbrev pub read_offset_of : ℕ → ℕ
read_offset_of step = if ltb 1 step then (step - 1) * 7 % page_size else step * 7 % page_size

abbrev pub after_read :
    TaskDispatcher → ℕ → ℕ → ℕ → ℕ → ReadResult × MemoryAllocator → Run (Unit {0})
after_read t i pid step o (ok (v, event), a) =
    save_step (log_event (log_repair t event) (read_verify pid v o)) i step a
after_read t i pid step o (err damaged, a) =
    retry_read i pid step o (handle_fault (log_event t (critical_fault damaged o pid)) i damaged a)
after_read t i pid step o (panic, a) = (panic, t, a)

-- The reading half of a step, on the frame that was written.
unfoldable pub read_phase : TaskDispatcher → ℕ → ℕ → ℕ → ℕ → MemoryAllocator → Run (Unit {0})
read_phase t i pid step frame a =
    let o = read_offset_of step in after_read t i pid step o (on_frame a frame (λ f. read_byte f o))

abbrev pub after_write :
    TaskDispatcher → ℕ → ℕ → ℕ → ℕ → Outcome (Unit {0}) Error × MemoryAllocator → Run (Unit {0})
after_write t i pid step frame (ok u, a) = read_phase t i pid step frame a
after_write t i pid step frame (err e, a) =
    retry_write i (step * 7 % page_size) (step * 17 % 2 ^ 8)
      (handle_fault (log_event t (write_fault pid e)) i frame a)
after_write t i pid step frame (panic, a) = (panic, t, a)

-- The step of the process `p` at index `i`, whose counter is already `step`, on its pages.
unfoldable pub run_step :
    TaskDispatcher → ℕ → KernelProcess → ℕ → ℕ → MemoryAllocator → List ℕ → Run (Unit {0})
unfolding read_phase
run_step t i p pid step a [] = (err no_memory_allocated, t, a)
run_step t i p pid step a (frame ∷ pages) =
    let offset = step * 7 % page_size in
    let value = step * 17 % 2 ^ 8 in
    let t' = log_event t (exec_write p.name p.pid value frame offset) in
    after_write t' i pid step frame (on_frame a frame (λ f. write_byte f offset value))

unfoldable pub execute_step : TaskDispatcher → ℕ → MemoryAllocator → Run (Unit {0})
unfolding position run_step
execute_step t pid a = elim (position pid t.processes) [
  | none ↦ (err process_not_found, t, a)
  | some i ↦ elim (get_elem? t.processes i) [
    | none ↦ (panic, t, a)
    | some p ↦ run_step t i p pid (p.instruction_step + 1) a p.allocated_pages
  ]
]

abbrev pub log_status : TaskDispatcher → String → TmrStatus → TaskDispatcher
log_status t name perfect = log_event t (tmr_success name)
log_status t name (corrected runner faulty majority) =
    log_event t (tmr_warning runner faulty majority)
log_status t name failed = log_event t (tmr_failure name)

module _ {ℓ} {T : Type ℓ} (same : T → T → Bool) (debug : T → String) where
  unfoldable pub execute_critical_tmr :
      TaskDispatcher → String → (ℕ → T) → Option T × TaskDispatcher
  execute_critical_tmr t name task =
      let r = execute_redundant same debug task in
      (r.value, log_status (log_event t (tmr_active name)) name r.status)
