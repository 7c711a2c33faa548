-- ===== src/Vfs/Remove.antt =====
-- virtual-fs/src/vfs.rs, `remove_node`: the blocks below the node are freed, and its entry goes.
-- The walk below a directory runs on fuel, and `none` is a walk that ran out of it.
use rustix_os.Prelude.{
  ℕ, zero, suc, ◌+◌, Bool, false, not, ◌&&◌, if◌then◌else◌, Option, none, some, List, [], ◌∷◌,
  length, get_elem?,
}
use rustix_os.Outcome.{ok, err, panic, remove_root, directory_not_empty}
use rustix_os.Allocator.{MemoryAllocator, Run}
use rustix_os.Vfs.Inode.{Text, text_eq, InodeType, directory, file, Inode, VirtualFileSystem}
use rustix_os.Vfs.Path.{root_path, is_empty, resolve_path, split_parent}
use rustix_os.Vfs.Tree.{drop_entry, update_inode}
use rustix_os.Vfs.Write.{VfsRun, free_blocks}

-- `free_child` is the walk below one child.
unfoldable pub free_entries :
    (ℕ → MemoryAllocator → Option (Run (Unit {0})))
    → List (Text × ℕ)
    → MemoryAllocator
    → Option (Run (Unit {0}))
free_entries free_child [] a = some (ok tt, a)
free_entries free_child ((name, child) ∷ entries) a = elim (free_child child a) [
  | none ↦ none
  | some (ok u, a') ↦ free_entries free_child entries a'
  | some (err e, a') ↦ some (err e, a')
  | some (panic, a') ↦ some (panic, a')
]

-- `deallocate_inode_recursive`.
unfoldable pub free_inode : ℕ → List Inode → ℕ → MemoryAllocator → Option (Run (Unit {0}))
unfolding free_entries free_blocks
free_inode zero inodes idx a = none
free_inode (suc fuel) inodes idx a = elim (get_elem? inodes idx) [
  | none ↦ some (panic, a)
  | some node ↦ elim node.inode_type [
    | file blocks size ↦ some (free_blocks blocks a)
    | directory entries ↦ free_entries (free_inode fuel inodes) entries a
  ]
]

abbrev pub has_entries : InodeType → Bool
has_entries (directory entries) = not (is_empty entries)
has_entries (file blocks size) = false

-- The entry goes from the parent's list.
unfoldable pub drop_from_parent : VirtualFileSystem → Text → MemoryAllocator → VfsRun (Unit {0})
unfolding resolve_path split_parent drop_entry update_inode
drop_from_parent v path a =
    let (parent_path, name) = split_parent path in
    elim (resolve_path v parent_path) [
      | err e ↦ (err e, v, a)
      | panic ↦ (panic, v, a)
      | ok parent ↦ let (r, v') = update_inode parent (drop_entry name) v in (r, v', a)
    ]

abbrev pub after_free :
    VirtualFileSystem → Text → Option (Run (Unit {0})) → Option (VfsRun (Unit {0}))
after_free v path none = none
after_free v path (some (ok u, a)) = some (drop_from_parent v path a)
after_free v path (some (err e, a)) = some (err e, v, a)
after_free v path (some (panic, a)) = some (panic, v, a)

-- A walk through distinct inodes is never deeper than the table is long.
unfoldable pub remove_node :
    VirtualFileSystem → Text → Bool → MemoryAllocator → Option (VfsRun (Unit {0}))
unfolding text_eq resolve_path free_inode drop_from_parent
remove_node v path recursive a =
    if text_eq path root_path then some (err remove_root, v, a) else elim (resolve_path v path) [
      | err e ↦ some (err e, v, a)
      | panic ↦ some (panic, v, a)
      | ok idx ↦ elim (get_elem? v.inodes idx) [
        | none ↦ some (panic, v, a)
        | some node ↦
            if has_entries node.inode_type && not recursive
            then some (err directory_not_empty, v, a)
            else after_free v path (free_inode (length v.inodes + 1) v.inodes idx a)
      ]
    ]
