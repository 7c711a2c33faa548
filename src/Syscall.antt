-- ===== src/Syscall.antt =====
-- kernel-x86/src/syscall.rs: the state that system calls work on, and the check of user pointers.
pub mod Calls
pub mod Pointer
pub mod Descriptors
pub mod Transfer
use package.rustix_os.Prelude.{
  ℕ, zero, suc, ◌+◌, ◌-◌, ◌*◌, ◌^◌, Bool, true, false, ◌&&◌, ◌||◌, leb, ltb, ◌==◌, if◌then◌else◌,
  Option, none, some, List, [], ◌∷◌, length, get_or, set,
}
use package.rustix_os.Vfs.Inode.{Text, VirtualFileSystem}
use package.rustix_os.Allocator.{MemoryAllocator}

-- Where the addresses are that the build and the machine choose: start and end of the frame buffer,
-- if there is one, and the start of `SHARED_INFO_PAGE`.
pub record UserMap : Type 0 where
  pub framebuffer : Option (ℕ × ℕ)
  pub shared_start : ℕ

abbrev pub user_code_start : ℕ
user_code_start = 0x400000

abbrev pub user_code_end : ℕ
user_code_end = user_code_start + 4 * 1024 * 1024 + 64 * 1024 * 1024

abbrev pub user_stack_top : ℕ
user_stack_top = 0x8000000

abbrev pub user_stack_base : ℕ
user_stack_base = user_stack_top - 128 * 1024

-- `ptr >= start && end <= stop`.
abbrev pub within : ℕ → ℕ → ℕ → ℕ → Bool
within start stop ptr end = leb start ptr && leb end stop

abbrev pub in_framebuffer : Option (ℕ × ℕ) → ℕ → ℕ → Bool
in_framebuffer none ptr end = false
in_framebuffer (some (start, stop)) ptr end = within start stop ptr end

unfoldable pub is_user_ptr : UserMap → ℕ → ℕ → Bool
is_user_ptr m ptr len =
    if ptr == 0
    then false
    else if leb (2 ^ 64) (ptr + len)
    then false
    else within user_code_start user_code_end ptr (ptr + len)
      || within user_stack_base user_stack_top ptr (ptr + len)
      || in_framebuffer m.framebuffer ptr (ptr + len)
      || within m.shared_start (m.shared_start + 4096) ptr (ptr + len)

pub record OpenFile : Type 0 where
  pub path : Text
  pub offset : ℕ

pub record Core : Type 0 where
  pub vfs : VirtualFileSystem
  pub allocator : MemoryAllocator

-- `memory` gives the byte at an address, that of `SHARED_INFO_PAGE` included (its second mapping at
-- 0x300000 is left out), `fd_table` is `FD_TABLE`, `core` is `SYSTEM_CORE`; `uart` is what was sent
-- to the serial port, and `serial` what it will receive.
pub record Kernel : Type 0 where
  pub user_map : UserMap
  pub memory : ℕ → ℕ
  pub fd_table : List (Option OpenFile)
  pub core : Option Core
  pub uart : List ℕ
  pub serial : List ℕ

-- What a call comes to: a number in `rax`, a panic, or a model loop without fuel.
pub data Reply : Type 0 where
  returns : ℕ → Reply
  panics : Reply
  no_fuel : Reply

abbrev pub Call : Type 0
Call = Reply × Kernel

abbrev pub u64_max : ℕ
u64_max = 2 ^ 64 - 1

-- `from_raw_parts(ptr, len)`.
unfoldable pub user_bytes : (ℕ → ℕ) → ℕ → ℕ → List ℕ
user_bytes memory ptr zero = []
user_bytes memory ptr (suc len) = memory ptr ∷ user_bytes memory (ptr + 1) len

-- `copy_nonoverlapping(data, ptr, data.len())`.
unfoldable pub copy_to_user : List ℕ → ℕ → (ℕ → ℕ) → ℕ → ℕ
copy_to_user bytes ptr memory address =
    if leb ptr address && ltb address (ptr + length bytes)
    then get_or bytes (address - ptr) 0
    else memory address
