-- ===== src/Shell/Handle.antt =====
-- `handle_command` of kernel-x86/src/shell.rs. The command line comes as the parts that
-- `split_whitespace` makes of it. The console and the layout of the printed lines are left out, and
-- so is what `run` and `usermode` do when they start a program: their replies stand for it.
use package.rustix_os.Prelude.{
  ℕ, ◌+◌, Bool, true, false, if◌then◌else◌, Option, none, some, List, [], ◌∷◌, length, get_elem?,
}
use package.rustix_os.Prelude.Codes.{codes}
use package.rustix_os.Outcome.{Outcome, ok, err, panic, Error}
use package.rustix_os.Allocator.{MemoryAllocator}
use package.rustix_os.Vfs.Inode.{
  Text, text_eq, directory, file, Inode, VirtualFileSystem, is_directory,
}
use package.rustix_os.Vfs.Path.{root_path, split_parent}
use package.rustix_os.Vfs.Tree
use package.rustix_os.Vfs.Tree.{mkdir, create_file, rename_node}
use package.rustix_os.Vfs.Write.{VfsRun, write_file}
use package.rustix_os.Vfs.Read.{ReadReport, read_file}
use package.rustix_os.Vfs.Remove.{remove_node}
use package.rustix_os.Vfs.Copy.{copy_file}
use package.rustix_os.Core.{SystemCore, inject_memory_flip}
use package.rustix_os.Input.Keyboard.{us, trq, KeyboardState, set_layout}
use package.rustix_os.Shell.Args.{join_words}
use package.rustix_os.Shell.Path.{resolve_relative_path}
use package.rustix_os.Shell.Find.{find_in_vfs, TreeLine, tree_fuel}
use package.rustix_os.Shell.Command.{
  Command, cmd_loadkeys, cmd_inject_flip, cmd_ls, cmd_write, cmd_rm, cmd_cp, cmd_mv, cmd_find,
  Reply, silent, usage, layout_switched, unknown_layout, flipped_frame, no_target, tree_lines,
  listing, file_size, done, wrote, failed, not_a_directory, no_such_directory, found_paths,
}

pub record Shell : Type 0 where
  pub core : SystemCore
  pub cwd : Text
  pub keyboard : KeyboardState

-- `none` where fuel ran out.
abbrev pub Served : Type 0
Served = Option (Outcome Reply Error × Shell)

abbrev pub reply : Reply → Shell → Served
reply r s = some (ok r, s)

abbrev pub with_tree : Shell → VirtualFileSystem → Shell
with_tree s v = record s { core = record s.core { vfs = v } }

abbrev pub with_storage : Shell → VirtualFileSystem → MemoryAllocator → Shell
with_storage s v a = record s { core = record s.core { vfs = v; allocator = a } }

abbrev pub after_tree : {A : Type 0} → Command → Reply → Shell → Tree.Run A → Served
after_tree cmd good s (ok x, v) = some (ok good, with_tree s v)
after_tree cmd good s (err e, v) = some (ok (failed cmd e), with_tree s v)
after_tree cmd good s (panic, v) = some (panic, with_tree s v)

abbrev pub after_files : {A : Type 0} → Command → (A → Reply) → Shell → VfsRun A → Served
after_files cmd good s (ok x, v, a) = some (ok (good x), with_storage s v a)
after_files cmd good s (err e, v, a) = some (ok (failed cmd e), with_storage s v a)
after_files cmd good s (panic, v, a) = some (panic, with_storage s v a)

abbrev pub after_fuel : {A : Type 0} → Command → (A → Reply) → Shell → Option (VfsRun A) → Served
after_fuel cmd good s none = none
after_fuel cmd good s (some r) = after_files cmd good s r

-- The frames that have an owner.
abbrev pub allocated : List (Option ℕ) → ℕ
allocated [] = 0
allocated (none ∷ owners) = allocated owners
allocated (some pid ∷ owners) = allocated owners + 1

abbrev pub first_allocated : ℕ → List (Option ℕ) → Option ℕ
first_allocated idx [] = none
first_allocated idx (none ∷ owners) = first_allocated (idx + 1) owners
first_allocated idx (some pid ∷ owners) = some idx

abbrev pub loadkeys : List Text → Shell → Served
loadkeys [] s = reply (usage cmd_loadkeys) s
loadkeys (a ∷ args) s =
    if text_eq a (codes "us")
    then reply (layout_switched us) (record s { keyboard = set_layout us s.keyboard })
    else (if text_eq a (codes "trq")
        then reply (layout_switched trq) (record s { keyboard = set_layout trq s.keyboard })
        else (reply (unknown_layout a) s))

-- Every command that reads one file and shows something of it.
abbrev pub show_file : Command → (Text → List ℕ → Reply) → Option Text → Shell → Served
show_file cmd shown none s = reply (usage cmd) s
show_file cmd shown (some a) s =
    let path = resolve_relative_path s.cwd a in
    after_fuel cmd (λ (r : List ℕ × ReadReport). shown path r.0) s
      (read_file s.core.vfs path s.core.allocator)

abbrev pub after_flip : ℕ → Shell → Outcome (Unit {0}) Error × SystemCore → Served
after_flip frame s (ok u, core) = reply (flipped_frame frame) (record s { core = core })
after_flip frame s (err e, core) = reply (failed cmd_inject_flip e) (record s { core = core })
after_flip frame s (panic, core) = some (panic, record s { core = core })

abbrev pub inject_flip : Option ℕ → Shell → Served
inject_flip none s = reply no_target s
inject_flip (some frame) s = after_flip frame s (inject_memory_flip s.core frame 8 3)

abbrev pub show_tree : Option (List TreeLine) → Shell → Served
show_tree none s = none
show_tree (some lines) s = reply (tree_lines lines) s

-- The entries with their kinds; `none` is an index out of the table.
unfoldable pub list_children : List Inode → List (Text × ℕ) → Option (List (Text × Bool))
list_children inodes [] = some []
list_children inodes ((name, child) ∷ entries) = elim (get_elem? inodes child) [
  | none ↦ none
  | some node ↦ elim (list_children inodes entries) [
    | none ↦ none
    | some rest ↦ some ((name, is_directory node.inode_type) ∷ rest)
  ]
]

abbrev pub list_node : Text → List Inode → Option Inode → Shell → Served
list_node path inodes none s = some (panic, s)
list_node path inodes (some node) s = elim node.inode_type [
  | directory entries ↦ elim (list_children inodes entries) [
    | none ↦ some (panic, s)
    | some children ↦ reply (listing path children) s
  ]
  | file blocks size ↦ reply (file_size node.name size) s
]

abbrev pub list_path : Text → Outcome ℕ Error → Shell → Served
list_path path (ok idx) s = list_node path s.core.vfs.inodes (get_elem? s.core.vfs.inodes idx) s
list_path path (err e) s = reply (failed cmd_ls e) s
list_path path panic s = some (panic, s)

abbrev pub enter_node : Text → Text → Option Inode → Shell → Served
enter_node target path none s = some (panic, s)
enter_node target path (some node) s =
    if is_directory node.inode_type
    then reply silent (record s { cwd = path })
    else reply (not_a_directory target) s

abbrev pub change_directory : Text → Text → Outcome ℕ Error → Shell → Served
change_directory target path (ok idx) s = enter_node target path (get_elem? s.core.vfs.inodes idx) s
change_directory target path (err e) s = reply (no_such_directory target) s
change_directory target path panic s = some (panic, s)

-- The path of an argument, with the parent's path and the name.
abbrev pub make_node :
    Command → (VirtualFileSystem → Text → Text → Tree.Run ℕ) → List Text → Shell → Served
make_node cmd make [] s = reply (usage cmd) s
make_node cmd make (a ∷ args) s =
    let path = resolve_relative_path s.cwd a in
    let p = split_parent path in after_tree cmd (done cmd path) s (make s.core.vfs p.0 p.1)

abbrev pub write_text : List Text → Shell → Served
write_text [] s = reply (usage cmd_write) s
write_text (a ∷ []) s = reply (usage cmd_write) s
write_text (a ∷ w ∷ ws) s =
    let path = resolve_relative_path s.cwd a in
    let text = join_words (w ∷ ws) in
    after_files cmd_write (λ u. wrote (length text) path) s
      (write_file s.core.vfs path text s.core.allocator 1000)

abbrev pub remove_path : Text → Bool → Shell → Served
remove_path a recursive s =
    let path = resolve_relative_path s.cwd a in
    after_fuel cmd_rm (λ u. done cmd_rm path) s
      (remove_node s.core.vfs path recursive s.core.allocator)

abbrev pub remove_all : List Text → Shell → Served
remove_all [] s = reply (usage cmd_rm) s
remove_all (a ∷ args) s = remove_path a true s

abbrev pub remove : List Text → Shell → Served
remove [] s = reply (usage cmd_rm) s
remove (a ∷ args) s = if text_eq a (codes "-rf") then remove_all args s else remove_path a false s

-- The target is not taken relative to the working directory.
abbrev pub copy : List Text → Shell → Served
copy [] s = reply (usage cmd_cp) s
copy (a ∷ []) s = reply (usage cmd_cp) s
copy (a ∷ b ∷ args) s =
    let path = resolve_relative_path s.cwd a in
    let p = split_parent b in
    after_fuel cmd_cp (λ u. done cmd_cp b) s
      (copy_file s.core.vfs path p.0 p.1 s.core.allocator 1000)

abbrev pub move : List Text → Shell → Served
move [] s = reply (usage cmd_mv) s
move (a ∷ []) s = reply (usage cmd_mv) s
move (a ∷ b ∷ args) s =
    let path = resolve_relative_path s.cwd a in
    let p = split_parent b in
    after_tree cmd_mv (done cmd_mv b) s (rename_node s.core.vfs path p.0 p.1)

abbrev pub show_found : Option (List Text) → Shell → Served
show_found none s = none
show_found (some paths) s = reply (found_paths paths) s

abbrev pub find : List Text → Shell → Served
find [] s = reply (usage cmd_find) s
find (a ∷ args) s = show_found (find_in_vfs (tree_fuel s.core.vfs) s.core.vfs 0 root_path a) s
