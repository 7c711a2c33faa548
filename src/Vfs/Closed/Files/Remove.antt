-- ===== src/Vfs/Closed/Files/Remove.antt =====
-- `remove_node` and `copy_file` on a closed table with a valid allocator.
use mathlib.Core.Path.{subst}
use rustix_os.Prelude.{
  ℕ, zero, suc, ◌+◌, ◌≤◌, ◌<◌, ◌≡◌, refl, arith, not, ◌&&◌, Bool, Bool-cases, Option-cases, inl,
  inr, Option, none, some, List, [], ◌∷◌, length, get_elem?-some,
}
use rustix_os.Outcome.{ok, err, panic, Outcome-cases}
use rustix_os.Allocator.{MemoryAllocator, Run}
use rustix_os.Allocator.Invariant.{IsValid}
use rustix_os.Allocator.Safe.{Returned, Safe, Any}
use rustix_os.Vfs.Inode.{Text, text_eq, InodeType-cases, Inode, VirtualFileSystem}
use rustix_os.Vfs.Path.{root_path, resolve_path, split_parent}
use rustix_os.Vfs.Tree
use rustix_os.Vfs.Tree.{drop_entry, update_inode, create_file}
use rustix_os.Vfs.Write.{VfsRun}
use rustix_os.Vfs.Write.Blocks.{free_blocks-Frees}
use rustix_os.Vfs.Read.{ReadReport}
use rustix_os.Vfs.Remove.{
  free_entries, free_inode, has_entries, drop_from_parent, after_free, remove_node,
}
use rustix_os.Vfs.Copy.{child_path, write_created, write_copy, copy_file}
use rustix_os.Vfs.Closed.{
  EntriesBelow, Points, AllPoint, IsClosed, AllPoint-get, resolve_path-Returned,
}
use rustix_os.Vfs.Closed.Tree.{Sound, drop_entry-Sound, create-Sound}
use rustix_os.Vfs.Closed.Files.{Keeps, err-Keeps, write_file-Keeps}
use rustix_os.Vfs.Closed.Files.Read.{Whenever, read_file-Keeps}

free_entries-Safe :
    (n : ℕ) (free_child : ℕ → MemoryAllocator → Option (Run (Unit {0}))) (es : List (Text × ℕ))
    (a : MemoryAllocator)
    → ((i : ℕ) (b : MemoryAllocator) → i < n → IsValid b → Whenever (Safe Any) (free_child i b))
    → EntriesBelow n es
    → IsValid a
    → Whenever (Safe Any) (free_entries free_child es a)
unfolding free_entries
free_entries-Safe n free_child [] a each h valid = record { returned = tt; valid = valid }
free_entries-Safe n free_child ((name, i) ∷ es) a each (lt, h) valid =
    let safe = each i a lt valid in
    elim (Option-cases (free_child i a)) [
      | inl e ↦ rw (e, free_entries) tt
      | inr ((r, a'), e) ↦
          let safe' : Safe Any (r, a') = subst (Whenever (Safe Any)) e safe in
          elim (Outcome-cases r) [
            | inl p ↦ absurd (subst (Returned Any) p safe'.returned)
            | inr (inl (x, p)) ↦
                rw (e, free_entries) (rw p (record { returned = tt; valid = safe'.valid }))
            | inr (inr (u, p)) ↦
                rw (e, free_entries)
                  (rw p (free_entries-Safe n free_child es a' each h safe'.valid))
          ]
    ]

free_inode-Safe :
    (fuel : ℕ) (inodes : List Inode) (i : ℕ) (a : MemoryAllocator)
    → AllPoint (length inodes) inodes
    → i < length inodes
    → IsValid a
    → Whenever (Safe Any) (free_inode fuel inodes i a)
unfolding free_inode
free_inode-Safe zero inodes i a h lt valid = tt
free_inode-Safe (suc fuel) inodes i a h lt valid =
    let x = get_elem?-some inodes i lt in
    let p = AllPoint-get (length inodes) inodes i h x.1 in
    elim (InodeType-cases x.0.inode_type) [
      | inr (blocks, size, t) ↦
          let freed = free_blocks-Frees blocks a valid in
          rw (x.1, t, free_inode) (rw freed.returns (record { returned = tt; valid = freed.valid }))
      | inl (es, t) ↦
          rw (x.1, t, free_inode)
            (free_entries-Safe (length inodes) (free_inode fuel inodes) es a
              (λ j b l v. free_inode-Safe fuel inodes j b h l v)
              (subst (Points (length inodes)) t p) valid)
    ]

Sound-Keeps :
    {n : ℕ} {r : Tree.Run (Unit {0})} {a : MemoryAllocator}
    → IsValid a
    → Sound Any n r
    → Keeps Any n (r.0, r.1, a)
Sound-Keeps m s = record { returned = s.returned; closed = s.closed; memory = m; kept = s.kept }

drop_from_parent-Keeps :
    (v : VirtualFileSystem) (path : Text) (a : MemoryAllocator)
    → IsClosed v
    → IsValid a
    → Keeps Any (length v.inodes) (drop_from_parent v path a)
unfolding drop_from_parent
drop_from_parent-Keeps v path a c m =
    let parent_path = (split_parent path).0 in
    let found = resolve_path-Returned v parent_path c in
    elim (Outcome-cases (resolve_path v parent_path)) [
      | inl p ↦ absurd (rw p at found)
      | inr (inl (e, p)) ↦ rw (p, drop_from_parent) (err-Keeps c m)
      | inr (inr (parent, p)) ↦
          let lt : parent < length v.inodes = rw p at found in
          rw (p, drop_from_parent)
            (Sound-Keeps m (drop_entry-Sound parent (split_parent path).1 v c lt))
    ]

after_free-Keeps :
    (v : VirtualFileSystem) (path : Text) (r : Option (Run (Unit {0})))
    → IsClosed v
    → Whenever (Safe Any) r
    → Whenever (Keeps Any (length v.inodes)) (after_free v path r)
after_free-Keeps v path none c h = tt
after_free-Keeps v path (some (ok u, a)) c h = drop_from_parent-Keeps v path a c h.valid
after_free-Keeps v path (some (err e, a)) c h = err-Keeps c h.valid
after_free-Keeps v path (some (panic, a)) c h = absurd h.returned

-- On a closed table with a valid allocator, removal of any path, where it ends within its fuel,
-- returns without a panic and leaves the table closed and the allocator valid.
pub remove_node-Keeps :
    (v : VirtualFileSystem) (path : Text) (recursive : Bool) (a : MemoryAllocator)
    → IsClosed v
    → IsValid a
    → Whenever (Keeps Any (length v.inodes)) (remove_node v path recursive a)
unfolding remove_node
remove_node-Keeps v path recursive a c m =
    let found = resolve_path-Returned v path c in
    elim (Bool-cases (text_eq path root_path)) [
      | inl root ↦ rw (root, remove_node) (err-Keeps c m)
      | inr other ↦ elim (Outcome-cases (resolve_path v path)) [
        | inl p ↦ absurd (rw p at found)
        | inr (inl (e, p)) ↦ rw (p, other, remove_node) (err-Keeps c m)
        | inr (inr (idx, p)) ↦
            let lt : idx < length v.inodes = rw p at found in
            let x = get_elem?-some v.inodes idx lt in
            elim (Bool-cases (has_entries x.0.inode_type && not recursive)) [
              | inl full ↦ rw (p, x.1, full, other, remove_node) (err-Keeps c m)
              | inr fine ↦
                  rw (p, x.1, fine, other, remove_node)
                    (after_free-Keeps v path (free_inode (length v.inodes + 1) v.inodes idx a) c
                      (free_inode-Safe (length v.inodes + 1) v.inodes idx a c.points lt m))
            ]
      ]
    ]

weaken : {n k : ℕ} {r : VfsRun (Unit {0})} → n ≤ k → Keeps Any k r → Keeps Any n r
weaken le s = record {
  returned = s.returned;
  closed = s.closed;
  memory = s.memory;
  kept = omega (arith, s.kept);
}

write_created-Keeps :
    {Post : ℕ → Type 0} (n : ℕ) (path : Text) (bytes : List ℕ) (a : MemoryAllocator) (pid : ℕ)
    (r : Tree.Run ℕ)
    → IsValid a
    → Sound Post n r
    → Keeps Any n (write_created path bytes a pid r)
write_created-Keeps n path bytes a pid (ok i, v) m s =
    weaken s.kept (write_file-Keeps v path bytes a pid s.closed m)
write_created-Keeps n path bytes a pid (err e, v) m s = record {
  returned = tt;
  closed = s.closed;
  memory = m;
  kept = s.kept;
}
write_created-Keeps n path bytes a pid (panic, v) m s = absurd s.returned

write_copy-Keeps :
    (n : ℕ) (parent name : Text) (pid : ℕ) (r : VfsRun (List ℕ × ReadReport))
    → Keeps Any n r
    → Keeps Any n (write_copy parent name pid r)
write_copy-Keeps n parent name pid (ok (bytes, report), v, a) s = weaken s.kept (
    write_created-Keeps (length v.inodes) (child_path parent name) bytes a pid
      (create_file v parent name) s.memory (create-Sound v parent name s.closed).1)
write_copy-Keeps n parent name pid (err e, v, a) s = record {
  returned = tt;
  closed = s.closed;
  memory = s.memory;
  kept = s.kept;
}
write_copy-Keeps n parent name pid (panic, v, a) s = absurd s.returned

-- On a closed table with a valid allocator, copying ends within its fuel, returns without a panic,
-- and leaves the table closed and the allocator valid.
pub copy_file-Keeps :
    (v : VirtualFileSystem) (src_path dst_parent dst_name : Text) (a : MemoryAllocator) (pid : ℕ)
    → IsClosed v
    → IsValid a
    → (r : VfsRun (Unit {0})) × (copy_file v src_path dst_parent dst_name a pid ≡ some r)
      × Keeps Any (length v.inodes) r
unfolding copy_file
copy_file-Keeps v src_path dst_parent dst_name a pid c m =
    let read = read_file-Keeps v src_path a c m in
    (
      write_copy dst_parent dst_name pid read.0,
      rw (read.1, copy_file) refl,
      write_copy-Keeps (length v.inodes) dst_parent dst_name pid read.0 read.2,
    )
