-- ===== src/Dispatcher/Log.antt =====
-- What a dispatcher always satisfies: its log is bounded, and its processes own frames of the pool.
use rustix_os.Prelude.{
  ℕ, zero, suc, ◌+◌, ◌≤◌, ◌<◌, ◌≡◌, refl, leb, ◌==◌, arith, Bool-cases, inl, inr, some, List, [],
  ◌∷◌, ◌++◌, length, get_elem?, set, length-append,
}
use mathlib.Core.Path.{subst}
use rustix_os.Allocator.{total_pages}
use rustix_os.Dispatcher
use rustix_os.Dispatcher.{
  KernelProcess, TaskDispatcher, LogEvent, forget_first, log_event, swap_page, set_process,
}

abbrev pub AllPages : List ℕ → Type 0
AllPages [] = Unit {0}
AllPages (x ∷ xs) = (x < total_pages) × AllPages xs

-- At least one page, all of them in the pool.
abbrev pub HasPages : List ℕ → Type 0
HasPages [] = ⊥
HasPages (x ∷ xs) = (x < total_pages) × AllPages xs

abbrev pub AllHavePages : List KernelProcess → Type 0
AllHavePages [] = Unit {0}
AllHavePages (p ∷ ps) = HasPages p.allocated_pages × AllHavePages ps

pub record IsValid (t : TaskDispatcher) : Type 0 where
  pub bounded : length t.event_logs ≤ 100
  pub paged : AllHavePages t.processes

length-forget_first {ℓ} :
    {A : Type ℓ} (xs : List A) → 1 ≤ length xs → length (forget_first xs) + 1 ≡ length xs
length-forget_first [] h = omega arith
length-forget_first (x ∷ xs) h = omega arith

-- A log of at most a hundred lines has at most a hundred after another event.
pub length-log_event :
    (t : TaskDispatcher) (e : LogEvent)
    → length t.event_logs ≤ 100
    → length (log_event t e).event_logs ≤ 100
unfolding log_event
length-log_event t e h = elim (Bool-cases (leb 100 (length t.event_logs))) [
  | inl full ↦ rw (full, length-append) (ground (arith, length-forget_first t.event_logs))
  | inr room ↦ rw (room, length-append) (ground arith)
]

pub processes-log_event :
    (t : TaskDispatcher) (e : LogEvent) → (log_event t e).processes ≡ t.processes
unfolding log_event
processes-log_event t e = refl

pub log_event-IsValid : (t : TaskDispatcher) (e : LogEvent) → IsValid t → IsValid (log_event t e)
unfolding log_event
log_event-IsValid t e h = record { bounded = length-log_event t e h.bounded; paged = h.paged }

pub HasPages-get :
    (ps : List KernelProcess) (i : ℕ) {p : KernelProcess}
    → AllHavePages ps
    → get_elem? ps i ≡ some p
    → HasPages p.allocated_pages
HasPages-get [] i {p} h e = cc
HasPages-get (q ∷ ps) zero {p} h e =
    let same : q ≡ p = cc in subst (λ (r : KernelProcess). HasPages r.allocated_pages) same h.0
HasPages-get (q ∷ ps) (suc i) {p} h e = HasPages-get ps i h.1 e

HasPages-set :
    (ps : List KernelProcess) (i : ℕ) (p : KernelProcess)
    → AllHavePages ps
    → HasPages p.allocated_pages
    → AllHavePages (set ps i p)
HasPages-set [] i p h k = tt
HasPages-set (q ∷ ps) zero p h k = (k, h.1)
HasPages-set (q ∷ ps) (suc i) p h k = (h.0, HasPages-set ps i p h.1 k)

pub HasPages-append :
    (ps : List KernelProcess) (p : KernelProcess)
    → AllHavePages ps
    → HasPages p.allocated_pages
    → AllHavePages (ps ++ p ∷ [])
HasPages-append [] p h k = (k, tt)
HasPages-append (q ∷ ps) p h k = (h.0, HasPages-append ps p h.1 k)

pub set_process-IsValid :
    (t : TaskDispatcher) (i : ℕ) (p : KernelProcess)
    → IsValid t
    → HasPages p.allocated_pages
    → IsValid (set_process t i p)
set_process-IsValid t i p h k = record {
  bounded = h.bounded;
  paged = HasPages-set t.processes i p h.paged k;
}

swap_page-AllPages :
    (old fresh : ℕ) (xs : List ℕ)
    → fresh < total_pages
    → AllPages xs
    → AllPages (swap_page old fresh xs)
unfolding swap_page
swap_page-AllPages old fresh [] lt h = tt
swap_page-AllPages old fresh (x ∷ xs) lt h = elim (Bool-cases (x == old)) [
  | inl e ↦ rw e (lt, h.1)
  | inr e ↦ rw e (h.0, swap_page-AllPages old fresh xs lt h.1)
]

-- A hot swap keeps a page table filled with frames of the pool.
pub swap_page-HasPages :
    (old fresh : ℕ) (xs : List ℕ)
    → fresh < total_pages
    → HasPages xs
    → HasPages (swap_page old fresh xs)
unfolding swap_page
swap_page-HasPages old fresh [] lt h = h
swap_page-HasPages old fresh (x ∷ xs) lt h = elim (Bool-cases (x == old)) [
  | inl e ↦ rw e (lt, h.1)
  | inr e ↦ rw e (h.0, swap_page-AllPages old fresh xs lt h.1)
]

-- The dispatcher of `new` is valid.
pub new-IsValid : IsValid Dispatcher.new
unfolding Dispatcher.new
new-IsValid = omega arith
