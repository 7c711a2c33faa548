-- ===== src/Shell/Path.antt =====
-- The paths of kernel-x86/src/shell.rs. `split_parent_child` there is `Vfs.Path.split_parent`.
pub mod Canonical
use package.rustix_os.Prelude.{Bool, true, false, ◌||◌, if◌then◌else◌, List, [], ◌∷◌, ◌++◌}
use package.rustix_os.Prelude.Codes.{codes}
use package.rustix_os.Vfs.Inode.{Text, text_eq}
use package.rustix_os.Vfs.Path.{slash, root_path, starts_with_slash, is_empty, split_slash}

abbrev pub dot : Text
dot = codes "."

abbrev pub dot_dot : Text
dot_dot = codes ".."

-- `stack.pop()`. The top of the stack stands first.
abbrev pub pop : List Text → List Text
pop [] = []
pop (s ∷ below) = below

unfoldable pub take_segment : List Text → Text → List Text
unfolding text_eq
take_segment stack segment =
    if is_empty segment || text_eq segment dot
    then stack
    else (if text_eq segment dot_dot then pop stack else segment ∷ stack)

unfoldable pub collapse : List Text → List Text → List Text
unfolding take_segment
collapse stack [] = stack
collapse stack (segment ∷ segments) = collapse (take_segment stack segment) segments

-- The loop that pushes a slash and a segment, from the bottom of the stack.
unfoldable pub join : List Text → Text
join [] = []
join (s ∷ below) = join below ++ slash ∷ s

unfoldable pub normalize_path : Text → Text
unfolding split_slash collapse join
normalize_path path =
    let stack = collapse [] (split_slash path) in if is_empty stack then root_path else join stack

-- `ends_with('/')`.
abbrev pub ends_with_slash : Text → Bool
ends_with_slash [] = false
ends_with_slash (c ∷ []) = starts_with_slash (c ∷ [])
ends_with_slash (c ∷ d ∷ s) = ends_with_slash (d ∷ s)

unfoldable pub resolve_relative_path : Text → Text → Text
unfolding normalize_path
resolve_relative_path cwd path =
    if starts_with_slash path
    then normalize_path path
    else (normalize_path (if ends_with_slash cwd then cwd ++ path else cwd ++ slash ∷ path))
