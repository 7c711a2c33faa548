-- ===== src/Syscall/Calls.antt =====
-- kernel-x86/src/syscall.rs: the calls that open and close files, those on directories, and fault
-- injection. The mapping of the buffer's pages is not modelled. `from_utf8` is the check of the core
-- library, with the text where it succeeds.
use rustix_os.Prelude.{
  ℕ, zero, suc, ◌+◌, ◌-◌, ◌%◌, Bool, true, false, not, ◌&&◌, ◌||◌, leb, ltb, ◌==◌, if◌then◌else◌,
  Option, none, some, List, [], ◌∷◌, get_elem?, set,
}
use rustix_os.Outcome.{Outcome, ok, err, panic, Error}
use rustix_os.Allocator.{MemoryAllocator, inject_bit_flip}
use rustix_os.Vfs.Inode.{Text, directory, file, VirtualFileSystem}
use rustix_os.Vfs.Path.{slash, root_path, starts_with_slash, is_empty, split_parent, resolve_path}
use rustix_os.Vfs.Tree.{mkdir, create_file}
use rustix_os.Vfs.Write.{VfsRun}
use rustix_os.Vfs.Remove.{remove_node}
use rustix_os.Syscall.{
  OpenFile, Kernel, returns, panics, no_fuel, Call, u64_max, is_user_ptr, user_bytes,
}

-- The path that the calls work with.
abbrev pub normalize : Text → Text
normalize raw = if starts_with_slash raw then raw else slash ∷ raw

-- `trim_start_matches('/')`.
unfoldable pub trim_start : Text → Text
trim_start [] = []
trim_start (c ∷ s) = if c == slash then trim_start s else c ∷ s

abbrev pub with_core : Kernel → VirtualFileSystem → MemoryAllocator → Kernel
with_core k v a = record k { core = some (record { vfs = v; allocator = a }) }

-- A buffer of the caller that may not be used.
abbrev pub refused : Kernel → ℕ → ℕ → Bool
refused k ptr len = ptr == 0 || len == 0 || not (is_user_ptr k.user_map ptr len)

-- The search for a free descriptor from `i`, with `left` to look at.
unfoldable pub free_descriptor : ℕ → ℕ → List (Option OpenFile) → Option ℕ
free_descriptor zero i table = none
free_descriptor (suc left) i table =
    let rest = free_descriptor left (i + 1) table in
    elim (get_elem? table i) [ none ↦ rest | some (some f) ↦ rest | some none ↦ some i ]

unfoldable pub place_descriptor : Kernel → Text → Call
unfolding free_descriptor
place_descriptor k path = elim (free_descriptor 13 3 k.fd_table) [
  | some i ↦ (
    returns i,
    record k { fd_table = set k.fd_table i (some (record { path = path; offset = 0 })) },
  )
  | none ↦ (returns (u64_max - 2), k)
]

-- The parent, made in the root if it has a name; a failure is not looked at.
unfoldable pub make_parent : VirtualFileSystem → Text → Outcome ℕ Error × VirtualFileSystem
unfolding trim_start mkdir
make_parent v parent =
    if is_empty (trim_start parent) then (ok 0, v) else mkdir v root_path (trim_start parent)

abbrev pub after_create :
    Text → Outcome ℕ Error × VirtualFileSystem → Outcome Bool Error × VirtualFileSystem
after_create path (ok idx, v) = (ok true, v)
after_create path (panic, v) = (panic, v)
after_create path (err e, v) = elim (resolve_path v path) [
  | ok idx ↦ (ok true, v)
  | err e' ↦ (ok false, v)
  | panic ↦ (panic, v)
]

-- The file is there, or has been made: `false` is a failure.
unfoldable pub ensure_file : VirtualFileSystem → Text → Outcome Bool Error × VirtualFileSystem
unfolding resolve_path split_parent make_parent create_file
ensure_file v path = elim (resolve_path v path) [
  | ok idx ↦ (ok true, v)
  | panic ↦ (panic, v)
  | err e ↦
      let (parent, name) = split_parent path in
      let (r, v') = make_parent v parent in
      elim r [
        | panic ↦ (panic, v')
        | ok idx ↦ after_create path (create_file v' parent name)
        | err e' ↦ after_create path (create_file v' parent name)
      ]
]

-- `SYS_OPEN`, from the path on.
unfoldable pub open_path : Kernel → Text → Call
unfolding ensure_file place_descriptor
open_path k path = elim k.core [
  | none ↦ (returns (u64_max - 3), k)
  | some core ↦
      let (r, v) = ensure_file core.vfs path in
      elim r [
        | ok true ↦ place_descriptor (with_core k v core.allocator) path
        | ok false ↦ (returns u64_max, with_core k v core.allocator)
        | err e ↦ (returns u64_max, with_core k v core.allocator)
        | panic ↦ (panics, with_core k v core.allocator)
      ]
]

-- `SYS_CLOSE`.
unfoldable pub sys_close : Kernel → ℕ → Call
sys_close k fd =
    if leb 3 fd && ltb fd 16
    then elim (get_elem? k.fd_table fd) [
      | none ↦ (panics, k)
      | some none ↦ (returns u64_max, k)
      | some (some f) ↦ (returns 0, record k { fd_table = set k.fd_table fd none })
    ]
    else (returns u64_max, k)

-- `SYS_MKDIR`, from the path on.
unfoldable pub mkdir_path : Kernel → Text → Call
unfolding split_parent make_parent mkdir
mkdir_path k path = elim k.core [
  | none ↦ (returns u64_max, k)
  | some core ↦
      let (parent, name) = split_parent path in
      let (r, v) = make_parent core.vfs parent in
      let (made, v') = mkdir v parent name in
      elim r [
        | panic ↦ (panics, with_core k v core.allocator)
        | _ ↦ elim made [
          | ok idx ↦ (returns 0, with_core k v' core.allocator)
          | err e ↦ (returns u64_max, with_core k v' core.allocator)
          | panic ↦ (panics, with_core k v' core.allocator)
        ]
      ]
]

-- The reply to a call whose work may fail.
abbrev pub after_work : Kernel → Option (VfsRun (Unit {0})) → Call
after_work k none = (no_fuel, k)
after_work k (some (ok u, v, a)) = (returns 0, with_core k v a)
after_work k (some (err e, v, a)) = (returns u64_max, with_core k v a)
after_work k (some (panic, v, a)) = (panics, with_core k v a)

-- `SYS_UNLINK`, from the path on.
unfoldable pub unlink_path : Kernel → Text → Call
unfolding remove_node
unlink_path k path = elim k.core [
  | none ↦ (returns u64_max, k)
  | some core ↦ after_work k (remove_node core.vfs path true core.allocator)
]

-- "/data/system_info.log"
abbrev pub log_path : Text
log_path =
    47 ∷ 100 ∷ 97 ∷ 116 ∷ 97 ∷ 47 ∷ 115 ∷ 121 ∷ 115 ∷ 116 ∷ 101 ∷ 109 ∷ 95 ∷ 105 ∷ 110 ∷ 102 ∷ 111
    ∷ 46 ∷ 108 ∷ 111 ∷ 103 ∷ []

-- The frame that an index stands for: 999 is the first block of the log file, if there is one.
abbrev pub target_frame : VirtualFileSystem → ℕ → Outcome ℕ Error
target_frame v index =
    if index == 999
    then elim (resolve_path v log_path) [
      | err e ↦ ok index
      | panic ↦ panic
      | ok idx ↦ elim (get_elem? v.inodes idx) [
        | none ↦ panic
        | some node ↦ elim node.inode_type [
          | directory entries ↦ ok index
          | file [] size ↦ ok index
          | file (b ∷ bs) size ↦ ok b
        ]
      ]
    ]
    else ok index

-- `SYS_INJECT_BIT_FLIP`.
unfoldable pub sys_inject : Kernel → ℕ → ℕ → ℕ → Call
unfolding inject_bit_flip
sys_inject k index offset bit = elim k.core [
  | none ↦ (returns u64_max, k)
  | some core ↦ elim (target_frame core.vfs index) [
    | err e ↦ (returns u64_max, k)
    | panic ↦ (panics, k)
    | ok frame ↦
        let (r, a) = inject_bit_flip core.allocator frame offset (bit % 256) in
        elim r [
          | ok u ↦ (returns 0, with_core k core.vfs a)
          | err e ↦ (returns u64_max, with_core k core.vfs a)
          | panic ↦ (panics, with_core k core.vfs a)
        ]
  ]
]

module _ (from_utf8 : List ℕ → Option Text) where
  -- A call on a path: the check of the pointer, the text, and the rest of the call.
  unfoldable pub with_path : (Kernel → Text → Call) → Kernel → ℕ → ℕ → Call
  unfolding user_bytes
  with_path work k ptr len =
      if refused k ptr len
      then (returns u64_max, k)
      else elim (from_utf8 (user_bytes k.memory ptr len)) [
        | none ↦ (returns u64_max, k)
        | some raw ↦ work k (normalize raw)
      ]

  unfoldable pub sys_open : Kernel → ℕ → ℕ → Call
  unfolding with_path open_path
  sys_open = with_path open_path

  unfoldable pub sys_mkdir : Kernel → ℕ → ℕ → Call
  unfolding with_path mkdir_path
  sys_mkdir = with_path mkdir_path

  unfoldable pub sys_unlink : Kernel → ℕ → ℕ → Call
  unfolding with_path unlink_path
  sys_unlink = with_path unlink_path
