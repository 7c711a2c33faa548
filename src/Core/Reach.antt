-- ===== src/Core/Reach.antt =====
-- The kernel as a state machine: what the operations make of the state, in any order, with bits
-- that flip in between.
use Prim.Native.String.{String}
use mathlib.Core.Path.{subst}
use rustix_os.Prelude.{ℕ, ◌≡◌, Bool, Option, none, some, List, length}
use rustix_os.Outcome.{ok, Yields}
use rustix_os.Allocator.{MemoryAllocator}
use rustix_os.Allocator.Safe.{Returned, Any}
use rustix_os.Dispatcher
use rustix_os.Dispatcher.{spawn_process}
use rustix_os.Dispatcher.Spawn.{Spawns, spawned_on, out_of_memory, spawn_process-Spawns}
use rustix_os.Vfs.Inode.{Text, VirtualFileSystem}
use rustix_os.Vfs.Tree.{mkdir, create_file, rename_node}
use rustix_os.Vfs.Write.{VfsRun, write_file}
use rustix_os.Vfs.Read.{ReadReport, read_file}
use rustix_os.Vfs.Remove.{remove_node}
use rustix_os.Vfs.Copy.{copy_file}
use rustix_os.Vfs.Ranked.{Answers, Gives, IsRanked, remove_node-Gives}
use rustix_os.Vfs.Closed.Tree.{create-Sound}
use rustix_os.Vfs.Closed.Tree.Rename.{rename_node-Sound}
use rustix_os.Vfs.Closed.Files.{Keeps, write_file-Keeps}
use rustix_os.Vfs.Closed.Files.Read.{Whenever, read_file-Keeps}
use rustix_os.Vfs.Closed.Files.Remove.{remove_node-Keeps, copy_file-Keeps}
use rustix_os.Core.{SystemCore, tick, inject_memory_flip}
use rustix_os.Core.Boot.{bootstrap}
use rustix_os.Core.Boot.Valid.{bootstrap-Yields}
use rustix_os.Core.Valid.{IsValid, Ticked, tick-Ticked, inject_memory_flip-IsValid}

abbrev with_vfs : SystemCore → VirtualFileSystem → SystemCore
with_vfs core v = record core { vfs = v }

abbrev with_files : SystemCore → VirtualFileSystem → MemoryAllocator → SystemCore
with_files core v a = record core { vfs = v; allocator = a }

abbrev with_kernel : SystemCore → Dispatcher.Run ℕ → SystemCore
with_kernel core (r, t, a) = record core { dispatcher = t; allocator = a }

-- One operation on the kernel's state, successful or not.
pub data Step (debug : ℕ → String) (core : SystemCore) : SystemCore → Type 0 where
  ticked : (core' : SystemCore) → tick debug core ≡ ok core' → Step debug core core'
  flipped : (frame offset bit : ℕ) → Step debug core (inject_memory_flip core frame offset bit).1
  spawns :
      (pid : ℕ) (name : String) (critical : Bool)
      → Step debug core
          (with_kernel core (spawn_process core.dispatcher pid name critical core.allocator))
  made_directory :
      (parent name : Text) → Step debug core (with_vfs core (mkdir core.vfs parent name).1)
  made_file :
      (parent name : Text) → Step debug core (with_vfs core (create_file core.vfs parent name).1)
  renamed :
      (path parent name : Text)
      → Step debug core (with_vfs core (rename_node core.vfs path parent name).1)
  written :
      (path : Text) (bytes : List ℕ) (pid : ℕ) (r : VfsRun (Unit {0}))
      → write_file core.vfs path bytes core.allocator pid ≡ r
      → Step debug core (with_files core r.1 r.2)
  has_read :
      (path : Text) (r : VfsRun (List ℕ × ReadReport))
      → read_file core.vfs path core.allocator ≡ some r
      → Step debug core (with_files core r.1 r.2)
  removed :
      (path : Text) (recursive : Bool) (r : VfsRun (Unit {0}))
      → remove_node core.vfs path recursive core.allocator ≡ some r
      → Step debug core (with_files core r.1 r.2)
  copied :
      (path parent name : Text) (pid : ℕ) (r : VfsRun (Unit {0}))
      → copy_file core.vfs path parent name core.allocator pid ≡ some r
      → Step debug core (with_files core r.1 r.2)

-- The states that the kernel can be in after its start.
pub data Reach (debug : ℕ → String) : SystemCore → Type 0 where
  booted : (core : SystemCore) → bootstrap ≡ ok core → Reach debug core
  next : {core core' : SystemCore} → Reach debug core → Step debug core core' → Reach debug core'

Keeps-IsValid :
    {A : Type 0} {Post : A → Type 0} {n : ℕ} {core : SystemCore} {r : VfsRun A}
    → IsValid core
    → Keeps Post n r
    → IsValid (with_files core r.1 r.2)
Keeps-IsValid v k = record { memory = k.memory; kernel = v.kernel; tree = k.closed }

spawned-IsValid :
    {core : SystemCore} {pid : ℕ} {name : String} {critical : Bool} {r : Dispatcher.Run ℕ}
    → IsValid core
    → Spawns core.dispatcher core.allocator pid name critical r
    → IsValid (with_kernel core r)
spawned-IsValid v (spawned_on frame p t' a' lt e e' free e'' h m) = record {
  memory = m;
  kernel = h;
  tree = v.tree;
}
spawned-IsValid v (out_of_memory t' no_frame e h) = record {
  memory = v.memory;
  kernel = h;
  tree = v.tree;
}

-- Every operation, in any order, keeps the state valid.
pub Step-IsValid :
    {debug : ℕ → String} {core core' : SystemCore}
    → IsValid core
    → Step debug core core'
    → IsValid core'
Step-IsValid {debug} {core} v (ticked c e) =
    let t : Ticked core c = subst (Yields (Ticked core)) e (tick-Ticked debug core v) in t.valid
Step-IsValid {core = core} v (flipped frame offset bit) =
    inject_memory_flip-IsValid core frame offset bit v
Step-IsValid {core = core} v (spawns pid name critical) =
    spawned-IsValid v
      (spawn_process-Spawns core.dispatcher pid name critical core.allocator v.kernel v.memory)
Step-IsValid {core = core} v (made_directory parent name) = record {
  memory = v.memory;
  kernel = v.kernel;
  tree = (create-Sound core.vfs parent name v.tree).0.closed;
}
Step-IsValid {core = core} v (made_file parent name) = record {
  memory = v.memory;
  kernel = v.kernel;
  tree = (create-Sound core.vfs parent name v.tree).1.closed;
}
Step-IsValid {core = core} v (renamed path parent name) = record {
  memory = v.memory;
  kernel = v.kernel;
  tree = (rename_node-Sound core.vfs path parent name v.tree).closed;
}
Step-IsValid {core = core} v (written path bytes pid r e) = Keeps-IsValid v (
    subst (Keeps Any (length core.vfs.inodes)) e
      (write_file-Keeps core.vfs path bytes core.allocator pid v.tree v.memory))
Step-IsValid {core = core} v (has_read path r e) =
    let k = read_file-Keeps core.vfs path core.allocator v.tree v.memory in
    Keeps-IsValid v (subst (Whenever (Keeps Any (length core.vfs.inodes))) e (rw k.1 k.2))
Step-IsValid {core = core} v (removed path recursive r e) = Keeps-IsValid v (
    subst (Whenever (Keeps Any (length core.vfs.inodes))) e
      (remove_node-Keeps core.vfs path recursive core.allocator v.tree v.memory))
Step-IsValid {core = core} v (copied path parent name pid r e) =
    let k = copy_file-Keeps core.vfs path parent name core.allocator pid v.tree v.memory in
    Keeps-IsValid v (subst (Whenever (Keeps Any (length core.vfs.inodes))) e (rw k.1 k.2))

pub Reach-IsValid : {debug : ℕ → String} {core : SystemCore} → Reach debug core → IsValid core
Reach-IsValid (booted core e) = subst (Yields IsValid) e bootstrap-Yields
Reach-IsValid (next r s) = Step-IsValid (Reach-IsValid r) s

-- An operation on files that does not panic and leaves the kernel in a valid state.
pub record Serves {A : Type 0} (core : SystemCore) (r : VfsRun A) : Type 0 where
  pub returned : Returned Any r.0
  pub valid : IsValid (with_files core r.1 r.2)

Keeps-Serves :
    {A : Type 0} {core : SystemCore} {r : VfsRun A}
    → IsValid core
    → Keeps Any (length core.vfs.inodes) r
    → Serves core r
Keeps-Serves v k = record { returned = k.returned; valid = Keeps-IsValid v k }

-- What the operations come to in a state.
pub record Served (core : SystemCore) : Type 0 where
  pub valid : IsValid core
  pub reads : (path : Text) → Answers (Serves core) (read_file core.vfs path core.allocator)
  pub writes :
      (path : Text) (bytes : List ℕ) (pid : ℕ)
      → Serves core (write_file core.vfs path bytes core.allocator pid)
  pub removes :
      (path : Text) (recursive : Bool)
      → Answers (Serves core) (remove_node core.vfs path recursive core.allocator)
  pub copies :
      (path parent name : Text) (pid : ℕ)
      → Answers (Serves core) (copy_file core.vfs path parent name core.allocator pid)

Whenever-Answers :
    {A : Type 0} {P Q : A → Type 0} (o : Option A)
    → Gives o
    → Whenever P o
    → ((x : A) → P x → Q x)
    → Answers Q o
Whenever-Answers none g h f = absurd g
Whenever-Answers (some x) g h f = f x h

IsValid-Served : {core : SystemCore} → IsValid core → IsRanked core.vfs → Served core
IsValid-Served {core} v ranked = record {
  valid = v;
  reads = λ path.
      let k = read_file-Keeps core.vfs path core.allocator v.tree v.memory in
      rw k.1 (Keeps-Serves v k.2);
  writes = λ path bytes pid.
      Keeps-Serves v (write_file-Keeps core.vfs path bytes core.allocator pid v.tree v.memory);
  removes = λ path recursive.
      Whenever-Answers (remove_node core.vfs path recursive core.allocator)
        (remove_node-Gives core.vfs path recursive core.allocator ranked)
        (remove_node-Keeps core.vfs path recursive core.allocator v.tree v.memory)
        (λ r k. Keeps-Serves v k);
  copies = λ path parent name pid.
      let k = copy_file-Keeps core.vfs path parent name core.allocator pid v.tree v.memory in
      rw k.1 (Keeps-Serves v k.2);
}

-- Every state that the kernel can reach from its start by ticks, flips of memory bits, new processes
-- and operations on files, in any order, is valid. Where its tree of directories has no cycle, reading,
-- writing, removing and copying at any path end within their fuel, do not panic, and leave a valid
-- state.
pub Reach-Served :
    {debug : ℕ → String} {core : SystemCore} → Reach debug core → IsRanked core.vfs → Served core
Reach-Served r ranked = IsValid-Served (Reach-IsValid r) ranked

-- In every state that the kernel can reach, the next tick succeeds and ends in a valid state: it keeps
-- the number of processes and the table of inodes, and counts its sweep and its critical operation.
-- Whether the contents of files and processes can still be read after it is not part of this.
pub Reach-Ticked :
    {debug : ℕ → String} {core : SystemCore}
    → Reach debug core
    → Yields (Ticked core) (tick debug core)
Reach-Ticked {debug} {core} r = tick-Ticked debug core (Reach-IsValid r)
