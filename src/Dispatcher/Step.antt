-- ===== src/Dispatcher/Step.antt =====
-- Every step of the dispatcher keeps the kernel's state valid and does not panic.
use mathlib.Core.Path.{subst}
use rustix_os.Prelude.{
  ℕ, ◌+◌, ◌*◌, ◌%◌, ◌^◌, ◌<◌, ◌≡◌, ◌∙◌, refl, ap, ◌==◌, arith, Bool-cases, Option-cases, inl, inr,
  Option, none, some, List, [], ◌∷◌, length, get_elem?, get_elem?-some, length-set,
}
use rustix_os.Outcome.{Outcome, ok, err, panic, Error}
use rustix_os.Frame.{CorrectionEvent, ReadResult, page_size, read_byte, write_byte}
use rustix_os.Allocator.{MemoryAllocator, total_pages, on_frame, relocate_and_quarantine}
use rustix_os.Allocator.Invariant
use rustix_os.Allocator.Safe.{Returned, Safe, Any, relocate-Safe, read-Safe, write-Safe}
use rustix_os.Dispatcher.{
  KernelProcess, TaskDispatcher, LogEvent, Run, log_event, position, swap_page, set_process,
  swapped, handle_fault, put_first, set_first_page, after_retry_write, retry_write, save_step,
  after_retry_read, retry_read, log_repair, read_offset_of, after_read, read_phase, after_write,
  run_step, execute_step, resumed, read_verify, critical_fault, exec_write, write_fault, hot_swap,
}
use rustix_os.Dispatcher.Log.{
  IsValid, HasPages, log_event-IsValid, processes-log_event, HasPages-get, set_process-IsValid,
  swap_page-HasPages,
}

-- What a call leaves: it returned, the state is valid, and no process has come or gone.
pub record Keeps {A : Type 0} (Post : A → Type 0) (n : ℕ) (r : Run A) : Type 0 where
  pub returned : Returned Post r.0
  pub dispatcher : IsValid r.1
  pub memory : Invariant.IsValid r.2
  pub size : length r.1.processes ≡ n

module _ {t : TaskDispatcher} {a : MemoryAllocator} (i : ℕ) (h : IsValid t)
    (m : Invariant.IsValid a) (lt : i < length t.processes) where
  put_first-Keeps :
      (fresh : ℕ) (p : KernelProcess)
      → fresh < total_pages
      → (pages : List ℕ) → HasPages pages
      → Keeps Any (length t.processes) (put_first t i p fresh a pages)
  put_first-Keeps fresh p hf [] k = absurd k
  put_first-Keeps fresh p hf (x ∷ xs) k = record {
    returned = tt;
    dispatcher = set_process-IsValid t i (record p { allocated_pages = fresh ∷ xs }) h (hf, k.1);
    memory = m;
    size = length-set t.processes i _;
  }

  set_first_page-Keeps :
      (fresh : ℕ)
      → fresh < total_pages
      → Keeps Any (length t.processes) (set_first_page t i fresh a)
  set_first_page-Keeps fresh hf =
      let p = get_elem?-some t.processes i lt in
      rw (p.1, set_first_page)
        (put_first-Keeps fresh p.0 hf p.0.allocated_pages (HasPages-get t.processes i h.paged p.1))

  save_step-Keeps : (step : ℕ) → Keeps Any (length t.processes) (save_step t i step a)
  save_step-Keeps step =
      let p = get_elem?-some t.processes i lt in
      rw (p.1, save_step)
        (record {
          returned = tt;
          dispatcher =
              set_process-IsValid t i (record (p.0) { instruction_step = step }) h
                (HasPages-get t.processes i h.paged p.1);
          memory = m;
          size = length-set t.processes i _;
        })

module _ {t : TaskDispatcher} (i : ℕ) (h : IsValid t) (lt : i < length t.processes) where
  swapped-Keeps :
      (p : KernelProcess) (damaged : ℕ) (x : Outcome ℕ Error × MemoryAllocator)
      → get_elem? t.processes i ≡ some p
      → Safe (λ n. n < total_pages) x
      → Keeps (λ n. n < total_pages) (length t.processes) (swapped t i p damaged x)
  swapped-Keeps p damaged (ok fresh, a) hp s =
      let p' = record p { allocated_pages = swap_page damaged fresh p.allocated_pages } in
      let t' = set_process t i p' in
      record {
        returned = s.returned;
        dispatcher = log_event-IsValid t' (hot_swap damaged p.pid fresh) (
            set_process-IsValid t i p' h (
              swap_page-HasPages damaged fresh p.allocated_pages s.returned
                (HasPages-get t.processes i h.paged hp)));
        memory = s.valid;
        size =
            ap length (processes-log_event t' (hot_swap damaged p.pid fresh))
            ∙ length-set t.processes i p';
      }
  swapped-Keeps p damaged (err e, a) hp s = record {
    returned = tt;
    dispatcher = h;
    memory = s.valid;
    size = refl;
  }
  swapped-Keeps p damaged (panic, a) hp s = absurd s.returned

  handle_fault-Keeps :
      (damaged : ℕ) (a : MemoryAllocator)
      → Invariant.IsValid a
      → Keeps (λ n. n < total_pages) (length t.processes) (handle_fault t i damaged a)
  unfolding handle_fault
  handle_fault-Keeps damaged a m =
      let p = get_elem?-some t.processes i lt in
      rw (p.1, handle_fault)
        (swapped-Keeps p.0 damaged (relocate_and_quarantine a damaged) p.1
          (relocate-Safe a damaged m))

  retry_write-Keeps :
      (offset value : ℕ) (r : Run ℕ)
      → Keeps (λ n. n < total_pages) (length t.processes) r
      → Keeps Any (length t.processes) (retry_write i offset value r)
  retry_write-Keeps offset value (ok fresh, t', a) k =
      after_retry_write-Keeps (on_frame a fresh (λ f. write_byte f offset value))
        (write-Safe a fresh offset k.memory k.returned value)
    where
      after_retry_write-Keeps :
          (x : Outcome (Unit {0}) Error × MemoryAllocator)
          → Safe Any x
          → Keeps Any (length t.processes) (after_retry_write t' i fresh x)
      after_retry_write-Keeps (ok u, a') s =
          rw (← k.size)
            (set_first_page-Keeps i k.dispatcher s.valid (rw k.size lt) fresh k.returned)
      after_retry_write-Keeps (err e, a') s = record {
        returned = tt;
        dispatcher = k.dispatcher;
        memory = s.valid;
        size = k.size;
      }
      after_retry_write-Keeps (panic, a') s = absurd s.returned
  retry_write-Keeps offset value (err e, t', a) k = record {
    returned = tt;
    dispatcher = k.dispatcher;
    memory = k.memory;
    size = k.size;
  }
  retry_write-Keeps offset value (panic, t', a) k = absurd k.returned

  retry_read-Keeps :
      (pid step o : ℕ) (r : Run ℕ)
      → Keeps (λ n. n < total_pages) (length t.processes) r
      → Keeps Any (length t.processes) (retry_read i pid step o r)
  retry_read-Keeps pid step o (ok fresh, t', a) k =
      after_retry_read-Keeps (on_frame a fresh (λ f. read_byte f o))
        (read-Safe a fresh o k.memory k.returned)
    where
      after_retry_read-Keeps :
          (x : ReadResult × MemoryAllocator)
          → Safe Any x
          → Keeps Any (length t.processes) (after_retry_read t' i pid step fresh x)
      after_retry_read-Keeps (ok (v, event), a') s =
          let e = resumed pid fresh v in
          let same = ap length (processes-log_event t' e) ∙ k.size in
          rw (← same)
            (save_step-Keeps i (log_event-IsValid t' e k.dispatcher) s.valid (rw same lt) step)
      after_retry_read-Keeps (err damaged, a') s = record {
        returned = tt;
        dispatcher = k.dispatcher;
        memory = s.valid;
        size = k.size;
      }
      after_retry_read-Keeps (panic, a') s = absurd s.returned
  retry_read-Keeps pid step o (err e, t', a) k = record {
    returned = tt;
    dispatcher = k.dispatcher;
    memory = k.memory;
    size = k.size;
  }
  retry_read-Keeps pid step o (panic, t', a) k = absurd k.returned

log_repair-IsValid :
    (t : TaskDispatcher) (e : Option CorrectionEvent) → IsValid t → IsValid (log_repair t e)
log_repair-IsValid t none h = h
log_repair-IsValid t (some e) h = log_event-IsValid t _ h

processes-log_repair :
    (t : TaskDispatcher) (e : Option CorrectionEvent) → (log_repair t e).processes ≡ t.processes
processes-log_repair t none = refl
processes-log_repair t (some e) = processes-log_event t _

module _ {t : TaskDispatcher} (i : ℕ) (h : IsValid t) (lt : i < length t.processes)
    (pid step : ℕ) where
  -- Whatever is logged first, the processes stay.
  via :
      {A : Type 0} {Post : A → Type 0} (e : LogEvent) {r : Run A}
      → Keeps Post (length (log_event t e).processes) r
      → Keeps Post (length t.processes) r
  via {A} {Post} e {r} k = subst (λ (n : ℕ). Keeps Post n r) (ap length (processes-log_event t e)) k

  after_read-Keeps :
      (o : ℕ) (x : ReadResult × MemoryAllocator)
      → Safe Any x
      → Keeps Any (length t.processes) (after_read t i pid step o x)
  after_read-Keeps o (ok (v, event), a) s =
      let t' = log_repair t event in
      let e = read_verify pid v o in
      let same = ap length (processes-log_event t' e ∙ processes-log_repair t event) in
      rw (← same) (
        save_step-Keeps i (log_event-IsValid t' e (log_repair-IsValid t event h)) s.valid
          (rw same lt) step)
  after_read-Keeps o (err damaged, a) s =
      let e = critical_fault damaged o pid in
      let lt' : i < length (log_event t e).processes = rw (processes-log_event t e) lt in
      let h' = log_event-IsValid t e h in
      via e (
        retry_read-Keeps i h' lt' pid step o (handle_fault (log_event t e) i damaged a)
          (handle_fault-Keeps i h' lt' damaged a s.valid))
  after_read-Keeps o (panic, a) s = absurd s.returned

  after_write-Keeps :
      (frame : ℕ) (x : Outcome (Unit {0}) Error × MemoryAllocator)
      → frame < total_pages
      → Safe Any x
      → Keeps Any (length t.processes) (after_write t i pid step frame x)
  unfolding read_phase
  after_write-Keeps frame (ok u, a) hf s =
      after_read-Keeps (read_offset_of step)
        (on_frame a frame (λ f. read_byte f (read_offset_of step)))
        (read-Safe a frame (read_offset_of step) s.valid hf)
  after_write-Keeps frame (err x, a) hf s =
      let e = write_fault pid x in
      let lt' : i < length (log_event t e).processes = rw (processes-log_event t e) lt in
      let h' = log_event-IsValid t e h in
      via e (
        retry_write-Keeps i h' lt' (step * 7 % page_size) (step * 17 % 2 ^ 8)
          (handle_fault (log_event t e) i frame a) (handle_fault-Keeps i h' lt' frame a s.valid))
  after_write-Keeps frame (panic, a) hf s = absurd s.returned

run_step-Keeps :
    {t : TaskDispatcher} (i : ℕ) (h : IsValid t) (lt : i < length t.processes) (pid step : ℕ)
    (p : KernelProcess) (a : MemoryAllocator) (pages : List ℕ)
    → Invariant.IsValid a
    → HasPages pages
    → Keeps Any (length t.processes) (run_step t i p pid step a pages)
unfolding run_step
run_step-Keeps i h lt pid step p a [] m k = absurd k
run_step-Keeps {t} i h lt pid step p a (frame ∷ pages) m k =
    let offset = step * 7 % page_size in
    let value = step * 17 % 2 ^ 8 in
    let e = exec_write p.name p.pid value frame offset in
    let lt' : i < length (log_event t e).processes = rw (processes-log_event t e) lt in
    via i h lt pid step e (
      after_write-Keeps i (log_event-IsValid t e h) lt' pid step frame
        (on_frame a frame (λ f. write_byte f offset value)) k.0
        (write-Safe a frame offset m k.0 value))

position-lt : (pid : ℕ) (ps : List KernelProcess) (i : ℕ) → position pid ps ≡ some i → i < length ps
unfolding position
position-lt pid [] i e = cc
position-lt pid (p ∷ ps) i e = elim (Bool-cases (p.pid == pid)) [
  | inl same ↦ ground arith
  | inr other ↦ elim (Option-cases (position pid ps)) [
    | inl nowhere ↦ ground arith
    | inr (j, found) ↦ ground (arith, position-lt pid ps j found)
  ]
]

-- Executing a step of any process of a valid kernel state does not panic, whatever bits have
-- flipped in memory; it leaves the allocator valid, the log within a hundred lines, every process
-- with a page of the pool, and as many processes as before.
pub execute_step-Keeps :
    (t : TaskDispatcher) (pid : ℕ) (a : MemoryAllocator)
    → IsValid t
    → Invariant.IsValid a
    → Keeps (λ (u : Unit {0}). Unit {0}) (length t.processes) (execute_step t pid a)
unfolding execute_step
execute_step-Keeps t pid a h m = elim (Option-cases (position pid t.processes)) [
  | inl nowhere ↦
      rw (nowhere, execute_step) (record { returned = tt; dispatcher = h; memory = m; size = refl })
  | inr (i, found) ↦
      let lt = position-lt pid t.processes i found in
      let p = get_elem?-some t.processes i lt in
      rw (found, execute_step)
        (rw p.1 (
          run_step-Keeps i h lt pid (p.0.instruction_step + 1) p.0 a p.0.allocated_pages m
            (HasPages-get t.processes i h.paged p.1)))
]
