-- ===== src/Threads/Context/Resume.antt =====
-- A thread that gave way goes on where it stood.
use package.rustix_os.Prelude.{ℕ, ◌+◌, ◌-◌, ◌≤◌, ◌<◌, ◌≡◌, ◌∙◌, arith, ◌⊎◌, inl, inr}
use package.rustix_os.Threads.Context.{Memory, Machine, save, restore, switch_context}

-- The words that `save` leaves on the stack.
saved_words :
    (m : Machine)
    → 56 ≤ m.rsp
    → let mem = (save m).memory in
      let p = m.rsp - 56 in
      ((save m).rsp ≡ p)
      × (mem p ≡ m.r15)
      × (mem (p + 8) ≡ m.r14)
      × (mem (p + 16) ≡ m.r13)
      × (mem (p + 24) ≡ m.r12)
      × (mem (p + 32) ≡ m.rbx)
      × (mem (p + 40) ≡ m.rbp)
      × (mem (p + 48) ≡ m.rip)
unfolding save
saved_words m h = (
  omega arith,
  ground arith,
  ground arith,
  ground arith,
  ground arith,
  ground arith,
  ground arith,
  ground arith,
)

-- `save` writes only to the 56 bytes below the stack pointer.
save_elsewhere :
    (m : Machine) (a : ℕ)
    → 56 ≤ m.rsp
    → (a < m.rsp - 56) ⊎ (m.rsp ≤ a)
    → (save m).memory a ≡ m.memory a
unfolding save
save_elsewhere m a h (inl lt) = ground arith
save_elsewhere m a h (inr le) = ground arith

-- The registers of `m`, in another machine.
pub record SameRegisters (m r : Machine) : Type 0 where
  pub r15 : r.r15 ≡ m.r15
  pub r14 : r.r14 ≡ m.r14
  pub r13 : r.r13 ≡ m.r13
  pub r12 : r.r12 ≡ m.r12
  pub rbx : r.rbx ≡ m.rbx
  pub rbp : r.rbp ≡ m.rbp
  pub rsp : r.rsp ≡ m.rsp
  pub rip : r.rip ≡ m.rip

-- Two memories that agree from `low` up to `high`.
abbrev pub Agree : ℕ → ℕ → Memory → Memory → Type 0
Agree low high mem mem' = (a : ℕ) → low ≤ a → a < high → mem' a ≡ mem a

restore-SameRegisters :
    (m r : Machine)
    → 56 ≤ m.rsp
    → Agree (m.rsp - 56) m.rsp (save m).memory r.memory
    → SameRegisters m (restore (save m).rsp r)
unfolding restore
restore-SameRegisters m r h same =
    let p = m.rsp - 56 in
    let w = saved_words m h in
    record {
      r15 = rw w.0 (same p (omega arith) (omega arith) ∙ w.1);
      r14 = rw w.0 (same (p + 8) (omega arith) (omega arith) ∙ w.2);
      r13 = rw w.0 (same (p + 16) (omega arith) (omega arith) ∙ w.3);
      r12 = rw w.0 (same (p + 24) (omega arith) (omega arith) ∙ w.4);
      rbx = rw w.0 (same (p + 32) (omega arith) (omega arith) ∙ w.5);
      rbp = rw w.0 (same (p + 40) (omega arith) (omega arith) ∙ w.6);
      rsp = omega (arith, w.0);
      rip = rw w.0 (same (p + 48) (omega arith) (omega arith) ∙ w.7);
    }

saved_apart :
    (m m' : Machine)
    → 56 ≤ m'.rsp
    → (m.rsp ≤ m'.rsp - 56) ⊎ (m'.rsp ≤ m.rsp - 56)
    → (a : ℕ) → m.rsp - 56 ≤ a
    → a < m.rsp
    → (save m').memory a ≡ m'.memory a
saved_apart m m' h' (inl above) a low high = save_elsewhere m' a h' (inl (omega arith))
saved_apart m m' h' (inr below) a low high = save_elsewhere m' a h' (inr (omega arith))

-- A thread that has switched away is resumed by a switch from any other machine, where the memory
-- from its stored stack pointer up to its old one is as it was left and the stack of the other
-- machine lies apart: all saved registers, the stack pointer and the place in the code are as they
-- were.
pub switch_context-SameRegisters :
    (m m' : Machine) (new_rsp : ℕ)
    → 56 ≤ m.rsp
    → 56 ≤ m'.rsp
    → (m.rsp ≤ m'.rsp - 56) ⊎ (m'.rsp ≤ m.rsp - 56)
    → Agree (m.rsp - 56) m.rsp (switch_context new_rsp m).1.memory m'.memory
    → SameRegisters m (switch_context (switch_context new_rsp m).0 m').1
unfolding switch_context
switch_context-SameRegisters m m' new_rsp h h' apart same =
    restore-SameRegisters m (save m') h
      (λ a low high. saved_apart m m' h' apart a low high ∙ same a low high)
