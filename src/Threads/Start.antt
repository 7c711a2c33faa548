-- ===== src/Threads/Start.antt =====
-- The threads that the registration of the first thread and `spawn` make.
use package.rustix_os.Prelude.{
  ℕ, ◌+◌, ◌≡◌, refl, sym, ◌∙◌, arith, true, false, leb, if◌then◌else◌, none, some, List, [], ◌∷◌,
  ◌++◌, length, get_elem?, length-append, dec_lt, ℕ_discrete,
}
use package.rustix_os.Prelude.Ends.{get_elem?-append_last, get_elem?-append_ne}
use package.rustix_os.Threads.{
  ThreadStatus, ready, running, Thread, Scheduler, new, register_main_thread, spawn, max_threads,
  context_ptr,
}
use package.rustix_os.Threads.Context.{Memory}
use package.rustix_os.Threads.RoundRobin.{status_at, IsScheduled, Marked}

append-Marked :
    (n : ℕ) (f : ℕ → ThreadStatus) (ts : List Thread) (t : Thread)
    → Marked n f ts
    → t.status ≡ f n
    → t.id ≡ n
    → Marked (n + 1) f (ts ++ t ∷ [])
append-Marked n f ts t h st id = record {
  size = omega (arith, length-append ts (t ∷ []), h.size);
  each = λ i {t = x} e. elim (ℕ_discrete i (length ts)) [
    | yes p ↦
        let last : get_elem? (ts ++ t ∷ []) i ≡ some t = rw p (get_elem?-append_last ts t) in
        let q : t ≡ x = cc in let place : i ≡ n = p ∙ h.size in rw (← q, place) (st, id)
    | no ne ↦ h.each i (sym (get_elem?-append_ne ts t i ne) ∙ e)
  ];
}

-- The first thread runs.
pub register_main_thread-IsScheduled : IsScheduled (register_main_thread new)
unfolding register_main_thread
register_main_thread-IsScheduled =
    let one =
      append-Marked 0 (status_at 0) [] (record { id = 0; status = running; stack = none; rsp = 0 })
        (record { size = refl; each = λ i e. absurd cc }) refl refl in
    record { inside = omega arith; each = one.each }

-- A new thread waits; the running thread and all numbers stay, and a fifth thread is refused.
pub spawn-IsScheduled :
    (entry_point address : ℕ) (s : Scheduler) (mem : Memory)
    → IsScheduled s
    → let r = spawn entry_point address s mem in
      IsScheduled r.1
      × (length r.1.threads
          ≡ (if leb max_threads (length s.threads) then length s.threads else length s.threads + 1))
unfolding spawn
spawn-IsScheduled entry_point address s mem h = elim (dec_lt (length s.threads) max_threads) [
  | yes lt ↦
      let e : leb max_threads (length s.threads) ≡ false = ground arith in
      let more =
        append-Marked (length s.threads) (status_at s.current_thread_idx) s.threads
          (record {
            id = length s.threads;
            status = ready;
            stack = some address;
            rsp = context_ptr address;
          })
          (record { size = refl; each = h.each }) (ground (arith, h.inside)) refl in
      rw e (record { inside = omega (arith, more.size, h.inside); each = more.each }, more.size)
  | no ge ↦ let e : leb max_threads (length s.threads) ≡ true = ground arith in rw e (h, refl)
]
