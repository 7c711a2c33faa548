-- ===== src/Vfs/Copy.antt =====
-- virtual-fs/src/vfs.rs, `copy_file`: read, create, write.
use rustix_os.Prelude.{ℕ, if◌then◌else◌, Option, none, some, List, ◌∷◌, ◌++◌}
use rustix_os.Outcome.{ok, err, panic}
use rustix_os.Allocator.{MemoryAllocator}
use rustix_os.Vfs.Inode.{Text, text_eq, VirtualFileSystem}
use rustix_os.Vfs.Path.{slash, root_path}
use rustix_os.Vfs.Tree.{Run, create_file}
use rustix_os.Vfs.Write.{VfsRun, write_file}
use rustix_os.Vfs.Read.{ReadReport, read_file}

-- `format!("/{}", name)` or `format!("{}/{}", parent, name)`.
unfoldable pub child_path : Text → Text → Text
unfolding text_eq
child_path parent name = if text_eq parent root_path then slash ∷ name else parent ++ (slash ∷ name)

abbrev pub write_created : Text → List ℕ → MemoryAllocator → ℕ → Run ℕ → VfsRun (Unit {0})
write_created path bytes a pid (ok idx, v) = write_file v path bytes a pid
write_created path bytes a pid (err e, v) = (err e, v, a)
write_created path bytes a pid (panic, v) = (panic, v, a)

abbrev pub write_copy : Text → Text → ℕ → VfsRun (List ℕ × ReadReport) → VfsRun (Unit {0})
write_copy parent name pid (ok (bytes, report), v, a) =
    write_created (child_path parent name) bytes a pid (create_file v parent name)
write_copy parent name pid (err e, v, a) = (err e, v, a)
write_copy parent name pid (panic, v, a) = (panic, v, a)

unfoldable pub copy_file :
    VirtualFileSystem → Text → Text → Text → MemoryAllocator → ℕ → Option (VfsRun (Unit {0}))
unfolding read_file child_path create_file write_file
copy_file v src_path dst_parent dst_name a pid = elim (read_file v src_path a) [
  | none ↦ none
  | some r ↦ some (write_copy dst_parent dst_name pid r)
]
