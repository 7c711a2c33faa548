-- ===== src/Shell/Find.antt =====
-- `find_in_vfs` and `print_vfs_tree` of kernel-x86/src/shell.rs. Both descend the tree without a bound,
-- and so have fuel here: none is left only deeper than the table of inodes is long, which needs a
-- cycle, on which the code does not end.
use package.rustix_os.Prelude.{
  ℕ, zero, suc, ◌+◌, Bool, true, false, not, ◌==◌, ◌&&◌, ◌||◌, if◌then◌else◌, Option, none, some,
  List, [], ◌∷◌, ◌++◌, get_elem?, length,
}
use package.rustix_os.Vfs.Inode.{Text, directory, file, Inode, VirtualFileSystem}
use package.rustix_os.Vfs.Path.{is_empty}
use package.rustix_os.Vfs.Copy.{child_path}

abbrev pub starts_with : Text → Text → Bool
starts_with s [] = true
starts_with [] (d ∷ t) = false
starts_with (c ∷ s) (d ∷ t) = c == d && starts_with s t

-- `s.contains(query)`.
abbrev pub contains : Text → Text → Bool
contains [] query = is_empty query
contains (c ∷ s) query = starts_with (c ∷ s) query || contains s query

abbrev pub append_lists {ℓ} : {A : Type ℓ} → Option (List A) → Option (List A) → Option (List A)
append_lists none o = none
append_lists (some xs) none = none
append_lists (some xs) (some ys) = some (xs ++ ys)

-- What the node itself adds to the results.
abbrev pub matching : Text → Text → Inode → List Text
matching current_path query node =
    if not (is_empty node.name) && contains node.name query then current_path ∷ [] else []

-- The loop over the entries of a directory.
unfoldable pub find_entries :
    (ℕ → Text → Option (List Text)) → Text → List (Text × ℕ) → Option (List Text)
unfolding child_path
find_entries descend current_path [] = some []
find_entries descend current_path ((name, child) ∷ entries) =
    append_lists (descend child (child_path current_path name))
      (find_entries descend current_path entries)

abbrev pub find_node :
    (ℕ → Text → Option (List Text)) → Text → Text → Option Inode → Option (List Text)
find_node descend current_path query none = some []
find_node descend current_path query (some node) = elim node.inode_type [
  | directory entries ↦
      append_lists (some (matching current_path query node))
        (find_entries descend current_path entries)
  | file blocks size ↦ some (matching current_path query node)
]

unfoldable pub find_in_vfs : ℕ → VirtualFileSystem → ℕ → Text → Text → Option (List Text)
unfolding find_entries
find_in_vfs zero v idx current_path query = none
find_in_vfs (suc fuel) v idx current_path query =
    find_node (λ child path. find_in_vfs fuel v child path query) current_path query
      (get_elem? v.inodes idx)

-- A line of the printed tree, with its indentation.
pub data TreeLine : Type 0 where
  root_line : TreeLine
  directory_line : ℕ → Text → TreeLine
  file_line : ℕ → Text → ℕ → TreeLine

unfoldable pub print_entries :
    (ℕ → Option (List TreeLine)) → List (Text × ℕ) → Option (List TreeLine)
print_entries descend [] = some []
print_entries descend ((name, child) ∷ entries) =
    append_lists (descend child) (print_entries descend entries)

abbrev pub print_node : (ℕ → Option (List TreeLine)) → ℕ → ℕ → Option Inode → Option (List TreeLine)
print_node descend idx indent none = some []
print_node descend idx indent (some node) = elim node.inode_type [
  | directory entries ↦
      append_lists (some ((if idx == 0 then root_line else directory_line indent node.name) ∷ []))
        (print_entries descend entries)
  | file blocks size ↦ some (file_line indent node.name size ∷ [])
]

unfoldable pub print_vfs_tree : ℕ → VirtualFileSystem → ℕ → ℕ → Option (List TreeLine)
unfolding print_entries
print_vfs_tree zero v idx indent = none
print_vfs_tree (suc fuel) v idx indent =
    print_node (λ child. print_vfs_tree fuel v child (indent + 1)) idx indent
      (get_elem? v.inodes idx)

abbrev pub tree_fuel : VirtualFileSystem → ℕ
tree_fuel v = length v.inodes + 1
