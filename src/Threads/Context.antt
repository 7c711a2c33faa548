-- ===== src/Threads/Context.antt =====
-- `switch_context` of kernel-x86/src/scheduler.rs, instruction by instruction. Memory gives the
-- 64-bit word at an address; `rip` is where the code goes on after the call.
pub mod Resume
use package.rustix_os.Prelude.{ℕ, ◌+◌, ◌-◌, ◌≤◌, ◌<◌, ◌≡◌, ◌≢◌, refl, arith, ◌==◌, if◌then◌else◌}

abbrev pub Memory : Type 0
Memory = ℕ → ℕ

abbrev pub store : ℕ → ℕ → Memory → Memory
store a v mem = λ b. if b == a then v else mem b

pub record Machine : Type 0 where
  pub r15 : ℕ
  pub r14 : ℕ
  pub r13 : ℕ
  pub r12 : ℕ
  pub rbx : ℕ
  pub rbp : ℕ
  pub rsp : ℕ
  pub rip : ℕ
  pub memory : Memory

abbrev pub push : ℕ → Machine → Machine
push v m = record m { rsp = m.rsp - 8; memory = store (m.rsp - 8) v m.memory }

-- The call, which pushes the return address, and the six pushes.
unfoldable pub save : Machine → Machine
save m =
    let m = push m.rip m in
    let m = push m.rbp m in
    let m = push m.rbx m in
    let m = push m.r12 m in let m = push m.r13 m in let m = push m.r14 m in push m.r15 m

-- `mov rsp, rsi`, the six pops and the return.
unfoldable pub restore : ℕ → Machine → Machine
restore rsp m = record {
  r15 = m.memory rsp;
  r14 = m.memory (rsp + 8);
  r13 = m.memory (rsp + 16);
  r12 = m.memory (rsp + 24);
  rbx = m.memory (rsp + 32);
  rbp = m.memory (rsp + 40);
  rip = m.memory (rsp + 48);
  rsp = rsp + 56;
  memory = m.memory;
}

-- What is stored to the old thread's `rsp`, and the machine after the switch.
unfoldable pub switch_context : ℕ → Machine → ℕ × Machine
unfolding save restore
switch_context new_rsp m = ((save m).rsp, restore new_rsp (save m))
