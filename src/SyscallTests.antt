-- ===== src/SyscallTests.antt =====
-- The system calls: the theorems at concrete inputs.
use rustix_os.Prelude.{
  ◌+◌, ◌-◌, ◌≡◌, refl, inl, inr, arith, if◌then◌else◌, leb, ltb, ◌&&◌, none, some, [], ◌∷◌, get_or,
  replicate,
}
use rustix_os.Allocator
use rustix_os.Vfs.Inode
use rustix_os.Syscall.{Kernel, is_user_ptr}
use rustix_os.Outcome.{ok}
use rustix_os.Vfs.Inode.{text_eq}
use rustix_os.Vfs.Path.{root_path, resolve_path}
use rustix_os.Syscall.Calls.{open_path}
use rustix_os.Syscall.Transfer.{sys_read, splice}
use rustix_os.Syscall.Pointer.{Allowed, is_user_ptr-Allowed, sys_read-outside}
use rustix_os.Syscall.Descriptors.{Opens, sys_close-open_path}
use rustix_os.Syscall.Transfer.Splice.{get_or-splice}

-- A machine with a frame buffer, no file, and one byte waiting at the serial port.
abbrev machine : Kernel
machine = record {
  user_map = record { framebuffer = some (0x80000000, 0x80400000); shared_start = 0x9000000 };
  memory = λ address. 0;
  fd_table = replicate 16 none;
  core = some (record { vfs = Inode.new; allocator = Allocator.new });
  uart = [];
  serial = 97 ∷ [];
}

is_user_ptr-Allowed_example : Allowed machine.user_map 0x80000003
unfolding is_user_ptr
is_user_ptr-Allowed_example =
    is_user_ptr-Allowed machine.user_map 0x80000000 16 0x80000003 refl (omega arith) (omega arith)

sys_read-outside_example :
    (sys_read (λ t. t) machine 0 0x400000 4).1.memory 0x400010 ≡ machine.memory 0x400010
sys_read-outside_example =
    sys_read-outside (λ t. t) machine 0 0x400000 4 0x400010 (inl (omega arith)) (inr (omega arith))

-- The root is there to be opened.
root_found : resolve_path Inode.new root_path ≡ ok 0
unfolding resolve_path text_eq
root_found = refl

sys_close-open_path_example : Opens machine (open_path machine root_path)
sys_close-open_path_example =
    sys_close-open_path machine (record { vfs = Inode.new; allocator = Allocator.new }) root_path 0
      refl root_found

get_or-splice_example : get_or (splice (1 ∷ 2 ∷ 3 ∷ []) 5 (7 ∷ 8 ∷ [])) 6 0 ≡ (
    if leb 5 6 && ltb 6 (5 + 2) then get_or (7 ∷ 8 ∷ []) (6 - 5) 0 else get_or (1 ∷ 2 ∷ 3 ∷ []) 6 0)
get_or-splice_example = get_or-splice (1 ∷ 2 ∷ 3 ∷ []) 5 (7 ∷ 8 ∷ []) 6
