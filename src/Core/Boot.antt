-- ===== src/Core/Boot.antt =====
-- kernel-core/src/bootstrap.rs, `SystemCore::bootstrap`: the first processes, directories and files.
-- Printing to the serial port and the scan of the PCI bus are left out.
pub mod Valid
use Prim.Native.String.{String}
use package.rustix_os.Prelude.{ℕ, Bool, true, false, List, [], ◌∷◌, ◌++◌}
use package.rustix_os.Prelude.Codes.{codes, line}
use package.rustix_os.Outcome.{Outcome, ok, err, panic, Error, ignore, ◌>>=◌}
use package.rustix_os.Allocator
use package.rustix_os.Allocator.{MemoryAllocator}
use package.rustix_os.Dispatcher
use package.rustix_os.Dispatcher.{TaskDispatcher, spawn_process}
use package.rustix_os.Vfs.Inode
use package.rustix_os.Vfs.Inode.{VirtualFileSystem}
use package.rustix_os.Vfs.Path.{root_path}
use package.rustix_os.Vfs.Tree.{mkdir, create_file}
use package.rustix_os.Vfs.Write.{VfsRun, write_file}
use package.rustix_os.Core.{SystemCore}

abbrev pub demo_bytes : List ℕ
demo_bytes =
    (72 ∷ 199 ∷ 192 ∷ 1 ∷ 0 ∷ 0 ∷ 0 ∷ 72 ∷ 141 ∷ 61 ∷ 43 ∷ 0 ∷ 0 ∷ 0 ∷ 15 ∷ 5 ∷ 72 ∷ 199 ∷ 192 ∷ 2
      ∷ 0 ∷ 0 ∷ 0 ∷ 72 ∷ 199 ∷ 199 ∷ 42 ∷ 0 ∷ 0 ∷ 0 ∷ 15 ∷ 5 ∷ 72 ∷ 199 ∷ 192 ∷ 1 ∷ 0 ∷ 0 ∷ 0 ∷ 72
      ∷ 141 ∷ 61 ∷ 44 ∷ 0 ∷ 0 ∷ 0 ∷ 15 ∷ 5 ∷ 72 ∷ 199 ∷ 192 ∷ 3 ∷ 0 ∷ 0 ∷ 0 ∷ 15 ∷ 5 ∷ [])
    ++ (line "Hello from Ring 3 (User Space)!"
        ++ (0 ∷ (line "Math verification: 42 * 10 resolved successfully." ++ 0 ∷ [])))

abbrev pub hello_bytes : List ℕ
hello_bytes =
    (72 ∷ 199 ∷ 192 ∷ 1 ∷ 0 ∷ 0 ∷ 0 ∷ 72 ∷ 141 ∷ 61 ∷ 11 ∷ 0 ∷ 0 ∷ 0 ∷ 15 ∷ 5 ∷ 72 ∷ 199 ∷ 192 ∷ 3
      ∷ 0 ∷ 0 ∷ 0 ∷ 15 ∷ 5 ∷ [])
    ++ (line "Greetings from Dynamic VFS Loader! Ring 3 active." ++ 0 ∷ [])

abbrev pub kernel_conf : List ℕ
kernel_conf =
    line "[kernel]"
    ++ (line "version=1.0.0" ++ (line "zero_unsafe=true" ++ line "security=tmr_ecc"))

abbrev pub system_info : List ℕ
system_info =
    line "2026-05-27: AE-Rustanium booted successfully."
    ++ (line "2026-05-27: 64 page frames allocated. SECDED ECC active."
        ++ line "2026-05-27: Background scrubber sweep running.")

abbrev pub keep_kernel : Dispatcher.Run ℕ → Outcome (TaskDispatcher × MemoryAllocator) Error
keep_kernel (ok pid, t, a) = ok (t, a)
keep_kernel (err e, t, a) = ok (t, a)
keep_kernel (panic, t, a) = panic

abbrev pub spawn :
    ℕ
    → String
    → Bool
    → TaskDispatcher × MemoryAllocator
    → Outcome (TaskDispatcher × MemoryAllocator) Error
spawn pid name critical (t, a) = keep_kernel (spawn_process t pid name critical a)

unfoldable pub spawn_services : Outcome (TaskDispatcher × MemoryAllocator) Error
unfolding spawn_process
spawn_services = do
  s ← spawn 101 "Telemetry" false (Dispatcher.new, Allocator.new)
  s ← spawn 102 "Navigation" true s
  spawn 103 "LifeSupport" false s

unfoldable pub make_directories : Outcome VirtualFileSystem Error
unfolding mkdir
make_directories = do
  v ← ignore (mkdir Inode.new root_path (codes "system"))
  v ← ignore (mkdir v root_path (codes "data"))
  ignore (mkdir v root_path (codes "bin"))

abbrev pub keep_files : VfsRun (Unit {0}) → Outcome (VirtualFileSystem × MemoryAllocator) Error
keep_files (ok u, v, a) = ok (v, a)
keep_files (err e, v, a) = ok (v, a)
keep_files (panic, v, a) = panic

-- The write after a `create_file` that may have failed.
abbrev pub fill :
    List ℕ
    → List ℕ
    → MemoryAllocator
    → Outcome ℕ Error × VirtualFileSystem
    → Outcome (VirtualFileSystem × MemoryAllocator) Error
fill path bytes a (ok idx, v) = keep_files (write_file v path bytes a 0)
fill path bytes a (err e, v) = ok (v, a)
fill path bytes a (panic, v) = panic

-- `if vfs.create_file(parent, name).is_ok() { let _ = vfs.write_file(path, bytes, …, 0); }`.
unfoldable pub install :
    String
    → String
    → String
    → List ℕ
    → VirtualFileSystem × MemoryAllocator
    → Outcome (VirtualFileSystem × MemoryAllocator) Error
unfolding create_file write_file
install parent name path bytes (v, a) =
    fill (codes path) bytes a (create_file v (codes parent) (codes name))

unfoldable pub install_files :
    VirtualFileSystem × MemoryAllocator → Outcome (VirtualFileSystem × MemoryAllocator) Error
unfolding install
install_files s = do
  s ← install "/bin" "demo.bin" "/bin/demo.bin" demo_bytes s
  s ← install "/bin" "hello.bin" "/bin/hello.bin" hello_bytes s
  s ← install "/system" "kernel.conf" "/system/kernel.conf" kernel_conf s
  install "/data" "system_info.log" "/data/system_info.log" system_info s

abbrev pub fresh_core : TaskDispatcher → VirtualFileSystem × MemoryAllocator → SystemCore
fresh_core t (v, a) = record {
  allocator = a;
  dispatcher = t;
  vfs = v;
  scrubber_sweeps = 0;
  ecc_single_bit_corrections = 0;
  pages_quarantined = 0;
  pages_relocated = 0;
  critical_tmr_ops = 0;
  tmr_voter_corrections = 0;
}

unfoldable pub bootstrap : Outcome SystemCore Error
unfolding spawn_services make_directories install_files
bootstrap = do
  s ← spawn_services
  v ← make_directories
  files ← install_files (v, s.1)
  ok (fresh_core s.0 files)
