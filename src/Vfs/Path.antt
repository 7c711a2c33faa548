-- ===== src/Vfs/Path.antt =====
-- virtual-fs/src/vfs.rs: the lookup of an absolute path, and the split of a path into the parent's
-- path and a name.
pub mod Keep
use package.rustix_os.Prelude.{
  ℕ, Bool, true, false, not, ◌&&◌, ◌==◌, if◌then◌else◌, Option, none, some, List, [], ◌∷◌,
  get_elem?,
}
use package.rustix_os.Outcome.{
  Outcome, ok, err, panic, Error, path_not_absolute, path_not_found, path_through_file,
}
use package.rustix_os.Vfs.Inode.{
  Text, text_eq, InodeType, directory, file, Inode, VirtualFileSystem,
}

abbrev pub slash : ℕ
slash = b'/'

abbrev pub root_path : Text
root_path = slash ∷ []

abbrev pub starts_with_slash : Text → Bool
starts_with_slash [] = false
starts_with_slash (c ∷ s) = c == slash

abbrev pub push_first : ℕ → List Text → List Text
push_first c [] = (c ∷ []) ∷ []
push_first c (w ∷ ws) = (c ∷ w) ∷ ws

-- `path.split('/')`.
unfoldable pub split_slash : Text → List Text
split_slash [] = [] ∷ []
split_slash (c ∷ s) =
    let rest = split_slash s in if c == slash then [] ∷ rest else push_first c rest

abbrev pub is_empty {ℓ} : {A : Type ℓ} → List A → Bool
is_empty [] = true
is_empty (x ∷ xs) = false

-- `.filter(|s| !s.is_empty())`.
unfoldable pub drop_empty : List Text → List Text
drop_empty [] = []
drop_empty (w ∷ ws) = if is_empty w then drop_empty ws else w ∷ drop_empty ws

-- The index under the first entry of that name.
unfoldable pub find_entry : Text → List (Text × ℕ) → Option ℕ
unfolding text_eq
find_entry part [] = none
find_entry part ((name, child) ∷ entries) =
    if text_eq name part then some child else find_entry part entries

-- One part of a path, looked up in the inode that the walk has come to; `rest` goes on from there.
unfoldable pub enter : (ℕ → Outcome ℕ Error) → Text → Option Inode → Outcome ℕ Error
unfolding find_entry
enter rest part none = panic
enter rest part (some node) = elim node.inode_type [
  | directory entries ↦ elim (find_entry part entries) [
    | none ↦ err path_not_found
    | some child ↦ rest child
  ]
  | file blocks size ↦ err path_through_file
]

-- The loop over the parts of the path, from the inode `idx`.
unfoldable pub walk : List Inode → ℕ → List Text → Outcome ℕ Error
unfolding enter
walk inodes idx [] = ok idx
walk inodes idx (part ∷ parts) = enter (λ c. walk inodes c parts) part (get_elem? inodes idx)

unfoldable pub resolve_path : VirtualFileSystem → Text → Outcome ℕ Error
unfolding text_eq split_slash drop_empty walk
resolve_path v path =
    if not (starts_with_slash path)
    then err path_not_absolute
    else if text_eq path root_path
    then ok 0
    else walk v.inodes 0 (drop_empty (split_slash path))

-- `path.trim_end_matches('/')`.
unfoldable pub trim_end : Text → Text
trim_end [] = []
trim_end (c ∷ s) = let rest = trim_end s in if c == slash && is_empty rest then [] else c ∷ rest

-- What stands before and behind the last slash.
unfoldable pub split_last : Text → Option (Text × Text)
split_last [] = none
split_last (c ∷ s) = elim (split_last s) [
  | some (parent, name) ↦ some (c ∷ parent, name)
  | none ↦ if c == slash then some ([], s) else none
]

-- The parent's path and the name of a node, as `remove_node` and `rename_node` find them,
-- and as `split_path` of kernel-x86/src/main.rs does.
unfoldable pub split_parent : Text → Text × Text
unfolding trim_end split_last
split_parent path = elim (split_last (trim_end path)) [
  | some (parent, name) ↦ (if is_empty parent then root_path else parent, name)
  | none ↦ (root_path, trim_end path)
]
