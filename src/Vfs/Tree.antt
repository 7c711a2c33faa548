-- ===== src/Vfs/Tree.antt =====
-- virtual-fs/src/vfs.rs: `mkdir`, `create_file` and `rename_node`, which change directories only.
use rustix_os.Prelude.{ℕ, if◌then◌else◌, none, some, List, [], ◌∷◌, ◌++◌, length, get_elem?, set}
use rustix_os.Outcome.{
  Outcome, ok, err, panic, Error, parent_not_directory, name_exists, rename_root,
  destination_not_directory,
}
use rustix_os.Vfs.Inode.{
  Text, text_eq, directory, file, Inode, VirtualFileSystem, new_directory, new_file,
}
use rustix_os.Vfs.Path.{root_path, find_entry, resolve_path, split_parent}

abbrev pub Run : Type 0 → Type 0
Run A = Outcome A Error × VirtualFileSystem

-- `entries.push(…)`, where the inode is a directory.
unfoldable pub push_entry : Text × ℕ → Inode → Inode
push_entry e node = elim node.inode_type [
  | directory entries ↦ record node { inode_type = directory (entries ++ e ∷ []) }
  | file blocks size ↦ node
]

-- Without the first entry of that name.
unfoldable pub remove_entry : Text → List (Text × ℕ) → List (Text × ℕ)
unfolding text_eq
remove_entry name [] = []
remove_entry name ((n, i) ∷ entries) =
    if text_eq n name then entries else (n, i) ∷ remove_entry name entries

unfoldable pub drop_entry : Text → Inode → Inode
unfolding remove_entry
drop_entry name node = elim node.inode_type [
  | directory entries ↦ record node { inode_type = directory (remove_entry name entries) }
  | file blocks size ↦ node
]

-- `inodes[i]`, changed in place.
unfoldable pub update_inode : ℕ → (Inode → Inode) → VirtualFileSystem → Run (Unit {0})
update_inode i change v = elim (get_elem? v.inodes i) [
  | none ↦ (panic, v)
  | some node ↦ (ok tt, record { inodes = set v.inodes i (change node) })
]

abbrev pub with_value {ℓ} :
    {A : Type ℓ}
    → A
    → Outcome (Unit {0}) Error × VirtualFileSystem
    → Outcome A Error × VirtualFileSystem
with_value x (ok u, v) = (ok x, v)
with_value x (err e, v) = (err e, v)
with_value x (panic, v) = (panic, v)

-- The common text of `mkdir` and `create_file`: `make` is the new inode.
unfoldable pub create_node : (ℕ → Text → Inode) → VirtualFileSystem → Text → Text → Run ℕ
unfolding resolve_path find_entry push_entry update_inode
create_node make v parent_path name = elim (resolve_path v parent_path) [
  | err e ↦ (err e, v)
  | panic ↦ (panic, v)
  | ok parent ↦ elim (get_elem? v.inodes parent) [
    | none ↦ (panic, v)
    | some node ↦ elim node.inode_type [
      | file blocks size ↦ (err parent_not_directory, v)
      | directory entries ↦ elim (find_entry name entries) [
        | some other ↦ (err name_exists, v)
        | none ↦
            let fresh = length v.inodes in
            let v' : VirtualFileSystem = record { inodes = v.inodes ++ make fresh name ∷ [] } in
            with_value fresh (update_inode parent (push_entry (name, fresh)) v')
      ]
    ]
  ]
]

unfoldable pub mkdir : VirtualFileSystem → Text → Text → Run ℕ
unfolding create_node new_directory
mkdir v parent_path name = create_node new_directory v parent_path name

unfoldable pub create_file : VirtualFileSystem → Text → Text → Run ℕ
unfolding create_node new_file
create_file v parent_path name = create_node new_file v parent_path name

infixl 5 ◌then_do◌
abbrev pub ◌then_do◌ : Run (Unit {0}) → (VirtualFileSystem → Run (Unit {0})) → Run (Unit {0})
◌then_do◌ (ok u, v) next = next v
◌then_do◌ (err e, v) next = (err e, v)
◌then_do◌ (panic, v) next = (panic, v)

-- The changes of `rename_node` after its checks.
unfoldable pub move_entry : Text → ℕ → ℕ → Text → VirtualFileSystem → Run (Unit {0})
unfolding resolve_path split_parent drop_entry push_entry update_inode
move_entry src_path src dst_parent dst_name v =
    let (parent_path, src_name) = split_parent src_path in
    elim (resolve_path v parent_path) [
      | err e ↦ (err e, v)
      | panic ↦ (panic, v)
      | ok src_parent ↦
          update_inode src_parent (drop_entry src_name) v
          then_do update_inode src (λ node. record node { name = dst_name })
          then_do update_inode dst_parent (push_entry (dst_name, src))
    ]

unfoldable pub rename_node : VirtualFileSystem → Text → Text → Text → Run (Unit {0})
unfolding move_entry
rename_node v src_path dst_parent_path dst_name =
    if text_eq src_path root_path then (err rename_root, v) else elim (resolve_path v src_path) [
      | err e ↦ (err e, v)
      | panic ↦ (panic, v)
      | ok src ↦ elim (resolve_path v dst_parent_path) [
        | err e ↦ (err e, v)
        | panic ↦ (panic, v)
        | ok dst_parent ↦ elim (get_elem? v.inodes dst_parent) [
          | none ↦ (panic, v)
          | some node ↦ elim node.inode_type [
            | file blocks size ↦ (err destination_not_directory, v)
            | directory entries ↦ elim (find_entry dst_name entries) [
              | some other ↦ (err name_exists, v)
              | none ↦ move_entry src_path src dst_parent dst_name v
            ]
          ]
        ]
      ]
    ]
