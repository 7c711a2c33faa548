-- ===== src/Core/Boot/Valid.antt =====
-- The start of the kernel succeeds, and gives a valid state.
use Prim.Native.String.{String}
use rustix_os.Prelude.{ℕ, arith, true, false, Bool, List}
use rustix_os.Prelude.Codes.{codes}
use rustix_os.Outcome.{ok, err, panic, ignore, Yields, >>=-Yields}
use rustix_os.Allocator
use rustix_os.Allocator.{MemoryAllocator}
use rustix_os.Allocator.Invariant
use rustix_os.Allocator.Safe.{Any}
use rustix_os.Dispatcher
use rustix_os.Dispatcher.{TaskDispatcher, spawn_process}
use rustix_os.Dispatcher.Log
use rustix_os.Dispatcher.Spawn.{Spawns, spawned_on, out_of_memory, spawn_process-Spawns}
use rustix_os.Vfs.Inode
use rustix_os.Vfs.Inode.{VirtualFileSystem, new_directory}
use rustix_os.Vfs.Path.{root_path}
use rustix_os.Vfs.Tree
use rustix_os.Vfs.Tree.{mkdir, create_file}
use rustix_os.Vfs.Write.{VfsRun, write_file}
use rustix_os.Vfs.Closed.{IsClosed}
use rustix_os.Vfs.Closed.Tree.{Sound, create-Sound}
use rustix_os.Vfs.Closed.Files.{Keeps, write_file-Keeps}
use rustix_os.Core.Boot.{
  keep_kernel, spawn, spawn_services, make_directories, keep_files, fill, install, install_files,
  demo_bytes, hello_bytes, kernel_conf, system_info, bootstrap,
}
use rustix_os.Core.Valid.{IsValid}

record Kernel (s : TaskDispatcher × MemoryAllocator) : Type 0 where
  pub valid : Log.IsValid s.0
  pub memory : Invariant.IsValid s.1

record Files (s : VirtualFileSystem × MemoryAllocator) : Type 0 where
  pub tree : IsClosed s.0
  pub memory : Invariant.IsValid s.1

keep_kernel-Yields :
    {t : TaskDispatcher} {a : MemoryAllocator} {pid : ℕ} {name : String} {critical : Bool}
    {r : Dispatcher.Run ℕ}
    → Invariant.IsValid a
    → Spawns t a pid name critical r
    → Yields Kernel (keep_kernel r)
keep_kernel-Yields m (spawned_on frame p t' a' lt e e' free e'' h m') = record {
  valid = h;
  memory = m';
}
keep_kernel-Yields m (out_of_memory t' no_frame e h) = record { valid = h; memory = m }

spawn-Yields :
    (pid : ℕ) (name : String) (critical : Bool) (s : TaskDispatcher × MemoryAllocator)
    → Kernel s
    → Yields Kernel (spawn pid name critical s)
spawn-Yields pid name critical (t, a) k =
    keep_kernel-Yields k.memory (spawn_process-Spawns t pid name critical a k.valid k.memory)

spawn_services-Yields : Yields Kernel spawn_services
unfolding spawn_services
spawn_services-Yields =
    >>=-Yields Kernel Kernel (spawn 101 "Telemetry" false (Dispatcher.new, Allocator.new)) _
      (spawn-Yields 101 "Telemetry" false (Dispatcher.new, Allocator.new)
        (record { valid = Log.new-IsValid; memory = Invariant.new-IsValid }))
      (λ s h.
        >>=-Yields Kernel Kernel (spawn 102 "Navigation" true s) _
          (spawn-Yields 102 "Navigation" true s h)
          (λ s' h'. spawn-Yields 103 "LifeSupport" false s' h'))

ignore-Yields :
    {Post : ℕ → Type 0} {n : ℕ} (r : Tree.Run ℕ) → Sound Post n r → Yields IsClosed (ignore r)
ignore-Yields (ok x, v) s = s.closed
ignore-Yields (err e, v) s = s.closed
ignore-Yields (panic, v) s = absurd s.returned

new-IsClosed : IsClosed Inode.new
unfolding Inode.new new_directory
new-IsClosed = omega arith

mkdir-Yields :
    (name : String) (v : VirtualFileSystem)
    → IsClosed v
    → Yields IsClosed (ignore (mkdir v root_path (codes name)))
mkdir-Yields name v c =
    ignore-Yields (mkdir v root_path (codes name)) (create-Sound v root_path (codes name) c).0

make_directories-Yields : Yields IsClosed make_directories
unfolding make_directories
make_directories-Yields =
    >>=-Yields IsClosed IsClosed (ignore (mkdir Inode.new root_path (codes "system"))) _
      (mkdir-Yields "system" Inode.new new-IsClosed)
      (λ v c.
        >>=-Yields IsClosed IsClosed (ignore (mkdir v root_path (codes "data"))) _
          (mkdir-Yields "data" v c) (λ v' c'. mkdir-Yields "bin" v' c'))

keep_files-Yields : {n : ℕ} (r : VfsRun (Unit {0})) → Keeps Any n r → Yields Files (keep_files r)
keep_files-Yields (ok u, v, a) k = record { tree = k.closed; memory = k.memory }
keep_files-Yields (err e, v, a) k = record { tree = k.closed; memory = k.memory }
keep_files-Yields (panic, v, a) k = absurd k.returned

fill-Yields :
    {Post : ℕ → Type 0} {n : ℕ} (path bytes : List ℕ) (a : MemoryAllocator) (r : Tree.Run ℕ)
    → Invariant.IsValid a
    → Sound Post n r
    → Yields Files (fill path bytes a r)
fill-Yields path bytes a (ok idx, v) m s =
    keep_files-Yields (write_file v path bytes a 0) (write_file-Keeps v path bytes a 0 s.closed m)
fill-Yields path bytes a (err e, v) m s = record { tree = s.closed; memory = m }
fill-Yields path bytes a (panic, v) m s = absurd s.returned

install-Yields :
    (parent name path : String) (bytes : List ℕ) (s : VirtualFileSystem × MemoryAllocator)
    → Files s
    → Yields Files (install parent name path bytes s)
unfolding install
install-Yields parent name path bytes (v, a) f =
    fill-Yields (codes path) bytes a (create_file v (codes parent) (codes name)) f.memory
      (create-Sound v (codes parent) (codes name) f.tree).1

install_files-Yields :
    (s : VirtualFileSystem × MemoryAllocator) → Files s → Yields Files (install_files s)
unfolding install_files
install_files-Yields s f =
    >>=-Yields Files Files (install "/bin" "demo.bin" "/bin/demo.bin" demo_bytes s) _
      (install-Yields "/bin" "demo.bin" "/bin/demo.bin" demo_bytes s f)
      (λ s' f'.
        >>=-Yields Files Files (install "/bin" "hello.bin" "/bin/hello.bin" hello_bytes s') _
          (install-Yields "/bin" "hello.bin" "/bin/hello.bin" hello_bytes s' f')
          (λ s'' f''.
            >>=-Yields Files Files
              (install "/system" "kernel.conf" "/system/kernel.conf" kernel_conf s'') _
              (install-Yields "/system" "kernel.conf" "/system/kernel.conf" kernel_conf s'' f'')
              (λ s''' f'''.
                install-Yields "/data" "system_info.log" "/data/system_info.log" system_info s'''
                  f''')))

pub bootstrap-Yields : Yields IsValid bootstrap
unfolding bootstrap
bootstrap-Yields = >>=-Yields Kernel IsValid spawn_services _ spawn_services-Yields (λ s k.
    >>=-Yields IsClosed IsValid make_directories _ make_directories-Yields (λ v c.
      >>=-Yields Files IsValid (install_files (v, s.1)) _
        (install_files-Yields (v, s.1) (record { tree = c; memory = k.memory }))
        (λ f h. record { memory = h.memory; kernel = k.valid; tree = h.tree })))
