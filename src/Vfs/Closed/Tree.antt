-- ===== src/Vfs/Closed/Tree.antt =====
-- `mkdir` and `create_file` on a closed table.
pub mod Rename
use rustix_os.Prelude.{
  ℕ, ◌+◌, ◌≤◌, ◌<◌, ◌≡◌, refl, arith, Bool-cases, Option-cases, inl, inr, List, [], ◌∷◌, ◌++◌,
  length, length-append, length-set, get_elem?-some,
}
use rustix_os.Outcome.{Outcome, ok, err, panic, Error, Outcome-cases}
use rustix_os.Allocator.Safe.{Returned, Any}
use rustix_os.Vfs.Inode.{
  Text, text_eq, InodeType-cases, Inode, VirtualFileSystem, new_directory, new_file,
}
use rustix_os.Vfs.Path.{root_path, find_entry, resolve_path, split_parent}
use rustix_os.Vfs.Tree.{
  push_entry, remove_entry, drop_entry, update_inode, with_value, create_node, mkdir, create_file,
  move_entry, rename_node, ◌then_do◌,
}
use rustix_os.Vfs.Closed.{
  EntriesBelow, Points, IsClosed, AllPoint-get, AllPoint-set, AllPoint-append, AllPoint-mono,
  resolve_path-Returned,
}

-- A call that returned and left a closed table with at least `n` inodes.
pub record Sound {A : Type 0} (Post : A → Type 0) (n : ℕ) (r : Outcome A Error × VirtualFileSystem)
    : Type 0 where
  pub returned : Returned Post r.0
  pub closed : IsClosed r.1
  pub kept : n ≤ length r.1.inodes

-- An error that changed nothing.
pub err-Sound :
    {A : Type 0} {Post : A → Type 0} {v : VirtualFileSystem} {e : Error}
    → IsClosed v
    → Sound Post (length v.inodes) (err e, v)
err-Sound c = record { returned = tt; closed = c; kept = omega arith }

EntriesBelow-append :
    (n : ℕ) (es : List (Text × ℕ)) (name : Text) (i : ℕ)
    → EntriesBelow n es
    → i < n
    → EntriesBelow n (es ++ (name, i) ∷ [])
EntriesBelow-append n [] name i h lt = (lt, tt)
EntriesBelow-append n ((m, j) ∷ es) name i (b, h) lt = (b, EntriesBelow-append n es name i h lt)

EntriesBelow-remove :
    (n : ℕ) (name : Text) (es : List (Text × ℕ))
    → EntriesBelow n es
    → EntriesBelow n (remove_entry name es)
unfolding remove_entry
EntriesBelow-remove n name [] h = tt
EntriesBelow-remove n name ((m, j) ∷ es) (b, h) = elim (Bool-cases (text_eq m name)) [
  | inl e ↦ rw e h
  | inr e ↦ rw e (b, EntriesBelow-remove n name es h)
]

pub push_entry-Points :
    (n : ℕ) (name : Text) (i : ℕ) (node : Inode)
    → i < n
    → Points n node.inode_type
    → Points n (push_entry (name, i) node).inode_type
unfolding push_entry
push_entry-Points n name i node lt h = elim (InodeType-cases node.inode_type) [
  | inl (es, t) ↦ rw t (EntriesBelow-append n es name i (rw t at h) lt)
  | inr (blocks, size, t) ↦ rw (t, push_entry) h
]

drop_entry-Points :
    (n : ℕ) (name : Text) (node : Inode)
    → Points n node.inode_type
    → Points n (drop_entry name node).inode_type
unfolding drop_entry
drop_entry-Points n name node h = elim (InodeType-cases node.inode_type) [
  | inl (es, t) ↦ rw t (EntriesBelow-remove n name es (rw t at h))
  | inr (blocks, size, t) ↦ rw (t, drop_entry) h
]

-- Changing one inode keeps the table closed, where the change keeps what the inode points to.
pub update_inode-Sound :
    (i : ℕ) (change : Inode → Inode) (v : VirtualFileSystem)
    → IsClosed v
    → i < length v.inodes
    → ((node : Inode)
        → Points (length v.inodes) node.inode_type
        → Points (length v.inodes) (change node).inode_type)
    → Sound Any (length v.inodes) (update_inode i change v)
unfolding update_inode
update_inode-Sound i change v c lt keep =
    let x = get_elem?-some v.inodes i lt in
    let same = length-set v.inodes i (change x.0) in
    rw (x.1, update_inode)
      (record {
        returned = tt;
        closed = record {
          rooted = rw same c.rooted;
          points = rw same (
              AllPoint-set (length v.inodes) v.inodes i (change x.0) c.points
                (keep x.0 (AllPoint-get (length v.inodes) v.inodes i c.points x.1)));
        };
        kept = omega (arith, same);
      })

pub drop_entry-Sound :
    (i : ℕ) (name : Text) (v : VirtualFileSystem)
    → IsClosed v
    → i < length v.inodes
    → Sound Any (length v.inodes) (update_inode i (drop_entry name) v)
drop_entry-Sound i name v c lt =
    update_inode-Sound i (drop_entry name) v c lt (drop_entry-Points (length v.inodes) name)

pub with_value-Sound :
    {n m i : ℕ} (r : Outcome (Unit {0}) Error × VirtualFileSystem)
    → m ≤ n
    → Sound Any n r
    → Sound (λ j. j ≡ i) m (with_value i r)
with_value-Sound (ok u, v) le s = record {
  returned = refl;
  closed = s.closed;
  kept = omega (arith, s.kept);
}
with_value-Sound (err e, v) le s = record {
  returned = tt;
  closed = s.closed;
  kept = omega (arith, s.kept);
}
with_value-Sound (panic, v) le s = absurd s.returned

module _ (make : ℕ → Text → Inode)
    (new_points : (n i : ℕ) (name : Text) → Points n (make i name).inode_type) where
  -- A node that is made gets the next index.
  pub create_node-Sound :
      (v : VirtualFileSystem) (parent_path name : Text)
      → IsClosed v
      → Sound (λ i. i ≡ length v.inodes) (length v.inodes) (create_node make v parent_path name)
  unfolding create_node
  create_node-Sound v parent_path name c =
      let found = resolve_path-Returned v parent_path c in
      elim (Outcome-cases (resolve_path v parent_path)) [
        | inl p ↦ absurd (rw p at found)
        | inr (inl (e, p)) ↦ rw (p, create_node) (err-Sound c)
        | inr (inr (parent, p)) ↦
            let lt : parent < length v.inodes = rw p at found in
            let x = get_elem?-some v.inodes parent lt in
            elim (InodeType-cases x.0.inode_type) [
              | inr (blocks, size, t) ↦ rw (p, create_node) (rw x.1 (rw t (err-Sound c)))
              | inl (es, t) ↦ elim (Option-cases (find_entry name es)) [
                | inr (other, f) ↦ rw (p, create_node) (rw x.1 (rw t (rw f (err-Sound c))))
                | inl f ↦
                    let fresh = length v.inodes in
                    let v' : VirtualFileSystem = record {
                      inodes = v.inodes ++ make fresh name ∷ [];
                    } in
                    let longer : length v'.inodes ≡ fresh + 1 =
                      length-append v.inodes (make fresh name ∷ []) in
                    let c' : IsClosed v' = record {
                      rooted = omega (arith, longer);
                      points = rw longer (
                          AllPoint-append (fresh + 1) v.inodes (make fresh name)
                            (AllPoint-mono v.inodes (omega arith) c.points)
                            (new_points (fresh + 1) fresh name));
                    } in
                    rw (p, create_node)
                      (rw x.1 (
                        rw t (
                          rw f (
                            with_value-Sound (update_inode parent (push_entry (name, fresh)) v')
                              (omega (arith, longer))
                              (update_inode-Sound parent (push_entry (name, fresh)) v' c'
                                (omega (arith, longer))
                                (λ node h.
                                  push_entry-Points (length v'.inodes) name fresh node
                                    (omega (arith, longer)) h))))))
              ]
            ]
      ]

-- On a closed table neither `mkdir` nor `create_file` panics; each leaves a closed table, and the
-- index of the new node is the next one.
pub create-Sound :
    (v : VirtualFileSystem) (parent_path name : Text)
    → IsClosed v
    → Sound (λ i. i ≡ length v.inodes) (length v.inodes) (mkdir v parent_path name)
      × Sound (λ i. i ≡ length v.inodes) (length v.inodes) (create_file v parent_path name)
unfolding mkdir create_file
create-Sound v parent_path name c = (
  create_node-Sound new_directory directory_points v parent_path name c,
  create_node-Sound new_file file_points v parent_path name c,
)
  where
    directory_points : (n i : ℕ) (m : Text) → Points n (new_directory i m).inode_type
    directory_points n i m = tt

    file_points : (n i : ℕ) (m : Text) → Points n (new_file i m).inode_type
    file_points n i m = tt
