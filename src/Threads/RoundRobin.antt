-- ===== src/Threads/RoundRobin.antt =====
-- Exactly the current thread runs, and every thread has its turn.
use package.rustix_os.Prelude.{
  ℕ, zero, suc, ◌+◌, ◌-◌, ◌%◌, ◌<◌, ◌≡◌, ◌≢◌, refl, sym, ◌∙◌, arith, true, false, ◌==◌, leb,
  if◌then◌else◌, some, List, length, get_elem?, set, length-set, get_elem?-set_self,
  get_elem?-set_ne, ℕ_discrete, get_elem?-some, dec_lt,
}
use mathlib.Core.Path.{subst}
use native.Mathlib.Nat.{mod-lt}
use package.rustix_os.Prelude.Wrap.{wrap, wrap_next}
use package.rustix_os.Outcome.{Outcome, ok, Error, Yields, ◌>>=◌, >>=-Yields}
use package.rustix_os.Threads.{
  ThreadStatus, ready, running, Thread, Scheduler, update_thread, with_status, with_rsp, switch_to,
  thread_yield,
}
use package.rustix_os.Threads.Context.{Machine, restore, switch_context}

-- The status of thread `i` when thread `current` runs.
abbrev pub status_at : ℕ → ℕ → ThreadStatus
status_at current i = if i == current then running else ready

-- Exactly the current thread runs, and the number of a thread is its place.
pub record IsScheduled (s : Scheduler) : Type 0 where
  pub inside : s.current_thread_idx < length s.threads
  pub each :
      (i : ℕ) {t : Thread}
      → get_elem? s.threads i ≡ some t
      → (t.status ≡ status_at s.current_thread_idx i) × (t.id ≡ i)

-- `n` threads with the statuses `f`, each numbered by its place.
pub record Marked (n : ℕ) (f : ℕ → ThreadStatus) (ts : List Thread) : Type 0 where
  pub size : length ts ≡ n
  pub each : (i : ℕ) {t : Thread} → get_elem? ts i ≡ some t → (t.status ≡ f i) × (t.id ≡ i)

set-Marked :
    {n : ℕ} (f g : ℕ → ThreadStatus) (k : ℕ) (ts : List Thread) (t : Thread)
    → Marked n f ts
    → k < n
    → t.status ≡ g k
    → t.id ≡ k
    → ((i : ℕ) → i ≢ k → f i ≡ g i)
    → Marked n g (set ts k t)
set-Marked f g k ts t h lt st id else_same = record {
  size = omega (arith, length-set ts k t, h.size);
  each = λ i {t = x} e. elim (ℕ_discrete i k) [
    | yes p ↦
        let self : get_elem? (set ts k t) i ≡ some t =
          rw p (get_elem?-set_self ts k t (omega (arith, h.size))) in
        let q : t ≡ x = cc in rw (← q, p) (st, id)
    | no ne ↦
        let other = get_elem?-set_ne ts {i = k} {j = i} t (λ p. ne (sym p)) in
        let old = h.each i (sym other ∙ e) in (old.0 ∙ else_same i ne, old.1)
  ];
}

update_thread-Marked :
    {n : ℕ} (f g : ℕ → ThreadStatus) (k : ℕ) (change : Thread → Thread) (ts : List Thread)
    → Marked n f ts
    → k < n
    → ((t : Thread) → (change t).id ≡ t.id)
    → ((t : Thread) → t.status ≡ f k → (change t).status ≡ g k)
    → ((i : ℕ) → i ≢ k → f i ≡ g i)
    → Yields (Marked n g) (update_thread k change ts)
update_thread-Marked f g k change ts h lt keep_id new_status else_same =
    let x = get_elem?-some ts k (omega (arith, h.size)) in
    let old = h.each k x.1 in
    rw x.1
      (set-Marked f g k ts (change x.0) h lt (new_status x.0 old.0) (keep_id x.0 ∙ old.1) else_same)

-- The machine has the registers of a context that stands at `rsp`, from r15 up to the place in the
-- code, and its stack pointer is above the context.
pub record Resumed (rsp : ℕ) (m : Machine) : Type 0 where
  pub r15 : m.r15 ≡ m.memory rsp
  pub r14 : m.r14 ≡ m.memory (rsp + 8)
  pub r13 : m.r13 ≡ m.memory (rsp + 16)
  pub r12 : m.r12 ≡ m.memory (rsp + 24)
  pub rbx : m.rbx ≡ m.memory (rsp + 32)
  pub rbp : m.rbp ≡ m.memory (rsp + 40)
  pub rip : m.rip ≡ m.memory (rsp + 48)
  pub top : m.rsp ≡ rsp + 56

switch_context-Resumed : (rsp : ℕ) (m : Machine) → Resumed rsp (switch_context rsp m).1
unfolding switch_context restore
switch_context-Resumed rsp m = record {
  r15 = refl;
  r14 = refl;
  r13 = refl;
  r12 = refl;
  rbx = refl;
  rbp = refl;
  rip = refl;
  top = refl;
}

-- The machine has taken up the context of thread `i` of `s`.
abbrev pub Executes : ℕ → Scheduler × Machine → Type 0
Executes i (s, m) = (t : Thread) × (get_elem? s.threads i ≡ some t) × Resumed t.rsp m

-- What a yield makes of `s`.
pub record Yielded (s : Scheduler) (r : Scheduler × Machine) : Type 0 where
  pub scheduled : IsScheduled r.0
  pub same : length r.0.threads ≡ length s.threads
  pub next : r.0.current_thread_idx ≡ (s.current_thread_idx + 1) % length s.threads
  pub switched : 1 < length s.threads → Executes r.0.current_thread_idx r

-- A change of thread `k` leaves the others as they are.
update_thread-Marked_rest :
    {n : ℕ} (f : ℕ → ThreadStatus) (k : ℕ) (change : Thread → Thread) (ts : List Thread)
    → Marked n f ts
    → k < n
    → ((t : Thread) → (change t).id ≡ t.id)
    → ((t : Thread) → (change t).status ≡ t.status)
    → Yields
        (λ us. Marked n f us × ((j : ℕ) → k ≢ j → get_elem? us j ≡ get_elem? ts j))
        (update_thread k change ts)
update_thread-Marked_rest f k change ts h lt keep_id keep_status =
    let x = get_elem?-some ts k (omega (arith, h.size)) in
    let old = h.each k x.1 in
    rw x.1 (
      set-Marked f f k ts (change x.0) h lt (keep_status x.0 ∙ old.0) (keep_id x.0 ∙ old.1)
          (λ i ne. refl),
      λ j ne. get_elem?-set_ne ts (change x.0) ne,
    )

-- The thread after one of several is another one.
next_ne : (c n : ℕ) → c < n → 1 < n → c ≢ (c + 1) % n
next_ne c n lt more e = ground (arith, wrap n c 1 lt (omega arith))

switch_to-Yields :
    (s : Scheduler) (next : ℕ) (m : Machine)
    → IsScheduled s
    → next < length s.threads
    → next ≡ (s.current_thread_idx + 1) % length s.threads
    → Yields (Yielded s) (switch_to s.current_thread_idx next s.threads m)
switch_to-Yields s next m h lt e =
    let old = s.current_thread_idx in
    let n = length s.threads in
    let f : ℕ → ThreadStatus = status_at old in
    let none_running : ℕ → ThreadStatus = λ i. ready in
    let g : ℕ → ThreadStatus = status_at next in
    >>=-Yields (Marked n none_running) (Yielded s) (update_thread old (with_status ready) s.threads)
      _
      (update_thread-Marked f none_running old (with_status ready) s.threads
        (record { size = refl; each = h.each }) h.inside (λ t. refl) (λ t p. refl)
        (λ i ne. ground arith))
      (λ ts h1.
        >>=-Yields (Marked n g) (Yielded s) (update_thread next (with_status running) ts) _
          (update_thread-Marked none_running g next (with_status running) ts h1 lt (λ t. refl)
            (λ t p. ground arith) (λ i ne. ground arith))
          (λ ts' h2.
            let x = get_elem?-some ts' next (omega (arith, h2.size)) in
            rw x.1 (
              >>=-Yields
                (λ us. Marked n g us × ((j : ℕ) → old ≢ j → get_elem? us j ≡ get_elem? ts' j))
                (Yielded s) (update_thread old (with_rsp (switch_context x.0.rsp m).0) ts') _
                (update_thread-Marked_rest g old (with_rsp (switch_context x.0.rsp m).0) ts' h2
                  h.inside (λ t. refl) (λ t. refl))
                (λ ts'' h3. record {
                  scheduled = record { inside = omega (arith, h3.0.size); each = h3.0.each };
                  same = h3.0.size;
                  next = e;
                  switched = λ more.
                      let ne : old ≢ next = λ q. next_ne old n h.inside more (q ∙ e) in
                      (x.0, h3.1 next ne ∙ x.1, switch_context-Resumed x.0.rsp m);
                }))))

-- A yield does not panic: it makes the thread after the current one the running one, the first after
-- the last, and no other, and it keeps the threads and their numbers. With more than one thread the
-- machine takes up the context at the stack pointer that is stored for the new running thread.
pub thread_yield-Yields :
    (s : Scheduler) (m : Machine) → IsScheduled s → Yields (Yielded s) (thread_yield s m)
unfolding thread_yield
thread_yield-Yields s m h = elim (dec_lt 1 (length s.threads)) [
  | yes p ↦
      let e : leb (length s.threads) 1 ≡ false = ground arith in
      let lt : (s.current_thread_idx + 1) % length s.threads < length s.threads =
        mod-lt _ (omega arith) in
      rw e (switch_to-Yields s ((s.current_thread_idx + 1) % length s.threads) m h lt refl)
  | no p ↦
      let e : leb (length s.threads) 1 ≡ true = ground arith in
      let one : length s.threads ≡ 1 = omega (arith, h.inside) in
      rw e (record {
        scheduled = h;
        same = refl;
        next = rw one (omega (arith, h.inside));
        switched = λ more. absurd (omega arith);
      })
]

-- `k` yields, where before each of them the running thread does its work on the machine.
abbrev pub yields :
    (ℕ → Machine → Machine) → ℕ → Scheduler × Machine → Outcome (Scheduler × Machine) Error
yields work zero p = ok p
yields work (suc k) (s, m) = thread_yield s (work k m) >>= yields work k

-- Of `n` threads the one at `i` runs, and no other, and the machine has taken up its context.
pub record RunsAt (n i : ℕ) (r : Scheduler × Machine) : Type 0 where
  pub scheduled : IsScheduled r.0
  pub same : length r.0.threads ≡ n
  pub current : r.0.current_thread_idx ≡ i
  pub executes : Executes i r

yields-RunsAt :
    (work : ℕ → Machine → Machine) (k : ℕ) (s : Scheduler) (m : Machine)
    → IsScheduled s
    → 1 < length s.threads
    → Yields
        (RunsAt (length s.threads) ((s.current_thread_idx + suc k) % length s.threads))
        (yields work (suc k) (s, m))
yields-RunsAt work zero s m h more =
    let n = length s.threads in
    >>=-Yields (Yielded s) (RunsAt n ((s.current_thread_idx + 1) % n)) (thread_yield s (work 0 m))
      (yields work 0) (thread_yield-Yields s (work 0 m) h)
      (λ r y. record {
        scheduled = y.scheduled;
        same = y.same;
        current = y.next;
        executes = subst (λ i. Executes i r) y.next (y.switched more);
      })
yields-RunsAt work (suc k) s m h more =
    let n = length s.threads in
    >>=-Yields (Yielded s) (RunsAt n ((s.current_thread_idx + suc (suc k)) % n))
      (thread_yield s (work (suc k) m)) (yields work (suc k))
      (thread_yield-Yields s (work (suc k) m) h)
      (λ r y.
        let e : (r.0.current_thread_idx + suc k) % length r.0.threads
            ≡ (s.current_thread_idx + suc (suc k)) % n =
          rw (y.same, y.next) (wrap_next n s.current_thread_idx (suc k)) in
        rw (e, y.same) at (yields-RunsAt work k r.0 r.1 y.scheduled (rw y.same more)))

-- Where exactly the current thread runs and each thread is numbered by its place, every other
-- thread has its turn: a positive number of yields below the number of threads makes it the running
-- one, and the machine then has the registers, the place in the code and the stack pointer of the
-- context that stands in memory at the stack pointer that is stored for the thread, whatever the
-- threads do to the machine between the yields.
pub yields-everyone :
    (i : ℕ) (s : Scheduler) (m : Machine) (work : ℕ → Machine → Machine)
    → IsScheduled s
    → i < length s.threads
    → i ≢ s.current_thread_idx
    → (k : ℕ) × (0 < k)
      × (k < length s.threads)
      × Yields (RunsAt (length s.threads) i) (yields work k (s, m))
yields-everyone i s m work h lt ne =
    let n = length s.threads in
    let c = s.current_thread_idx in
    elim (dec_lt i c) [
      | yes below ↦
          let k = n + i - c - 1 in
          let e : (c + suc k) % n ≡ i =
            ground (arith, wrap n c (suc k) h.inside (omega (arith, h.inside))) in
          (
            suc k,
            omega arith,
            omega (arith, h.inside),
            rw e at (yields-RunsAt work k s m h (omega (arith, h.inside))),
          )
      | no ge ↦
          let k = i - c - 1 in
          let above : c < i = omega (arith, ne, ge) in
          let e : (c + suc k) % n ≡ i =
            ground (arith, wrap n c (suc k) h.inside (omega (arith, h.inside))) in
          (
            suc k,
            omega arith,
            omega arith,
            rw e at (yields-RunsAt work k s m h (omega (arith, h.inside))),
          )
    ]
