-- ===== src/Vfs/Closed/Files.antt =====
-- `write_file` on a closed table with a valid allocator.
pub mod Read
pub mod Remove
use package.rustix_os.Prelude.{
  ℕ, ◌+◌, ◌≤◌, ◌<◌, ◌≡◌, refl, arith, Option-cases, inl, inr, Option, none, some, List, [], ◌∷◌,
  length, length-set, get_elem?, get_elem?-some, lt-of_get_elem?, set,
}
use package.rustix_os.Outcome.{Outcome, ok, err, panic, Error, Outcome-cases}
use package.rustix_os.Allocator.{MemoryAllocator, total_pages}
use package.rustix_os.Allocator.Invariant.{IsValid}
use package.rustix_os.Allocator.Safe.{Returned, Any}
use package.rustix_os.Vfs.Inode.{Text, directory, file, InodeType-cases, Inode, VirtualFileSystem}
use package.rustix_os.Vfs.Path.{resolve_path}
use package.rustix_os.Vfs.Path.Keep.{with_blocks}
use package.rustix_os.Vfs.Write.{VfsRun, write_file}
use package.rustix_os.Vfs.Write.Page.{HoldsAll}
use package.rustix_os.Vfs.RoundTrip.{IsFileAt, WritesFile, stored, no_room, write_file-WritesFile}
use package.rustix_os.Vfs.Closed.{
  InPool, Points, IsClosed, AllPoint-get, AllPoint-set, resolve_path-Returned,
}

-- A call that returned, and left a closed table and a valid allocator.
pub record Keeps {A : Type 0} (Post : A → Type 0) (n : ℕ) (r : VfsRun A) : Type 0 where
  pub returned : Returned Post r.0
  pub closed : IsClosed r.1
  pub memory : IsValid r.2
  pub kept : n ≤ length r.1.inodes

pub HoldsAll-InPool :
    {a : MemoryAllocator} (pid : ℕ) (bytes : List ℕ) (num : ℕ) (bs : List ℕ)
    → IsValid a
    → HoldsAll a pid bytes num bs
    → InPool bs
HoldsAll-InPool pid bytes num [] valid h = tt
HoldsAll-InPool {a} pid bytes num (b ∷ bs) valid (h, hs) = (
  omega (arith, lt-of_get_elem? a.allocation_map b h.owned, valid.map_full),
  HoldsAll-InPool pid bytes (num + 1) bs valid hs,
)

pub set_file-IsClosed :
    (v : VirtualFileSystem) (i : ℕ) (node : Inode)
    → IsClosed v
    → Points (length v.inodes) node.inode_type
    → IsClosed (record { inodes = set v.inodes i node })
set_file-IsClosed v i node c p =
    let same = length-set v.inodes i node in
    record {
      rooted = rw same c.rooted;
      points = rw same (AllPoint-set (length v.inodes) v.inodes i node c.points p);
    }

WritesFile-Keeps :
    {v : VirtualFileSystem} {path : Text} {bytes : List ℕ} {pid : ℕ} {f : IsFileAt v path}
    {a : MemoryAllocator} {r : VfsRun (Unit {0})}
    → IsClosed v
    → WritesFile v path bytes pid f a r
    → Keeps Any (length v.inodes) r
WritesFile-Keeps {v} {path} {bytes} {pid} {f} c (stored bs a' valid e count h) = record {
  returned = tt;
  closed =
      set_file-IsClosed v f.idx (with_blocks f.node bs (length bytes)) c
        (HoldsAll-InPool pid bytes 0 bs valid h);
  memory = valid;
  kept = omega (arith, length-set v.inodes f.idx (with_blocks f.node bs (length bytes)));
}
WritesFile-Keeps c (no_room bs needed a' count few free old valid) = record {
  returned = tt;
  closed = c;
  memory = valid;
  kept = omega arith;
}

-- An error that changed nothing.
pub err-Keeps :
    {A : Type 0} {Post : A → Type 0} {v : VirtualFileSystem} {a : MemoryAllocator} {e : Error}
    → IsClosed v
    → IsValid a
    → Keeps Post (length v.inodes) (err e, v, a)
err-Keeps c m = record { returned = tt; closed = c; memory = m; kept = omega arith }

-- On a closed table with a valid allocator, writing to any path returns, and leaves both so.
pub write_file-Keeps :
    (v : VirtualFileSystem) (path : Text) (bytes : List ℕ) (a : MemoryAllocator) (pid : ℕ)
    → IsClosed v
    → IsValid a
    → Keeps Any (length v.inodes) (write_file v path bytes a pid)
unfolding write_file
write_file-Keeps v path bytes a pid c m =
    let found = resolve_path-Returned v path c in
    elim (Outcome-cases (resolve_path v path)) [
      | inl p ↦ absurd (rw p at found)
      | inr (inl (e, p)) ↦ rw (p, write_file) (err-Keeps c m)
      | inr (inr (idx, p)) ↦
          let lt : idx < length v.inodes = rw p at found in
          let x = get_elem?-some v.inodes idx lt in
          elim (InodeType-cases x.0.inode_type) [
            | inl (es, t) ↦ rw (p, x.1, t, write_file) (err-Keeps c m)
            | inr (blocks, size, t) ↦
                let f : IsFileAt v path = record {
                  idx = idx;
                  node = x.0;
                  blocks = blocks;
                  size = size;
                  resolves = p;
                  stands = x.1;
                  is_file = t;
                } in
                WritesFile-Keeps c (write_file-WritesFile v path bytes pid f a m)
          ]
    ]
