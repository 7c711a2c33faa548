-- ===== src/Vfs/Closed/Tree/Rename.antt =====
-- `rename_node` on a closed table.
use rustix_os.Prelude.{
  ℕ, ◌≤◌, ◌<◌, arith, Bool-cases, Option-cases, inl, inr, length, get_elem?-some,
}
use rustix_os.Outcome.{Outcome, ok, err, panic, Error, Outcome-cases}
use rustix_os.Allocator.Safe.{Any}
use rustix_os.Vfs.Inode.{Text, text_eq, InodeType-cases, VirtualFileSystem}
use rustix_os.Vfs.Path.{root_path, find_entry, resolve_path, split_parent}
use rustix_os.Vfs.Tree.{push_entry, move_entry, rename_node, ◌then_do◌}
use rustix_os.Vfs.Closed.{IsClosed, resolve_path-Returned}
use package.rustix_os.Vfs.Closed.Tree.{
  Sound, err-Sound, push_entry-Points, update_inode-Sound, drop_entry-Sound,
}

then_do-Sound :
    {n : ℕ} (r : Outcome (Unit {0}) Error × VirtualFileSystem)
    (next : VirtualFileSystem → Outcome (Unit {0}) Error × VirtualFileSystem)
    → Sound Any n r
    → (IsClosed r.1 → n ≤ length r.1.inodes → Sound Any n (next r.1))
    → Sound Any n (r then_do next)
then_do-Sound (ok u, v) next s k = k s.closed s.kept
then_do-Sound (err e, v) next s k = s
then_do-Sound (panic, v) next s k = absurd s.returned

weaken :
    {n m : ℕ} {r : Outcome (Unit {0}) Error × VirtualFileSystem}
    → m ≤ n
    → Sound Any n r
    → Sound Any m r
weaken le s = record { returned = s.returned; closed = s.closed; kept = omega (arith, s.kept) }

module _ (v : VirtualFileSystem) (c : IsClosed v) (src dst_parent : ℕ) (dst_name : Text)
    (src_lt : src < length v.inodes) (dst_lt : dst_parent < length v.inodes) where
  move_entry-Sound :
      (src_path : Text)
      → Sound Any (length v.inodes) (move_entry src_path src dst_parent dst_name v)
  unfolding move_entry
  move_entry-Sound src_path =
      let parent_path = (split_parent src_path).0 in
      let found = resolve_path-Returned v parent_path c in
      elim (Outcome-cases (resolve_path v parent_path)) [
        | inl p ↦ absurd (rw p at found)
        | inr (inl (e, p)) ↦ rw (p, move_entry) (err-Sound c)
        | inr (inr (src_parent, p)) ↦
            let lt : src_parent < length v.inodes = rw p at found in
            rw (p, move_entry)
              (then_do-Sound _ _
                (then_do-Sound _ _ (drop_entry-Sound src_parent (split_parent src_path).1 v c lt)
                  (λ c' le. weaken le (
                    update_inode-Sound src (λ node. record node { name = dst_name }) _ c'
                      (omega (arith, le)) (λ node h. h))))
                (λ c' le. weaken le (
                  update_inode-Sound dst_parent (push_entry (dst_name, src)) _ c'
                    (omega (arith, le))
                    (λ node h. push_entry-Points _ dst_name src node (omega (arith, le)) h))))
      ]

-- On a closed table `rename_node` does not panic, and leaves a closed table.
pub rename_node-Sound :
    (v : VirtualFileSystem) (src_path dst_parent_path dst_name : Text)
    → IsClosed v
    → Sound Any (length v.inodes) (rename_node v src_path dst_parent_path dst_name)
unfolding rename_node
rename_node-Sound v src_path dst_parent_path dst_name c =
    let found = resolve_path-Returned v src_path c in
    let found' = resolve_path-Returned v dst_parent_path c in
    elim (Bool-cases (text_eq src_path root_path)) [
      | inl root ↦ rw (root, rename_node) (err-Sound c)
      | inr other ↦ elim (Outcome-cases (resolve_path v src_path)) [
        | inl p ↦ absurd (rw p at found)
        | inr (inl (e, p)) ↦ rw (p, other, rename_node) (err-Sound c)
        | inr (inr (src, p)) ↦ elim (Outcome-cases (resolve_path v dst_parent_path)) [
          | inl q ↦ absurd (rw q at found')
          | inr (inl (e, q)) ↦ rw (p, q, other, rename_node) (err-Sound c)
          | inr (inr (dst, q)) ↦
              let src_lt : src < length v.inodes = rw p at found in
              let dst_lt : dst < length v.inodes = rw q at found' in
              let x = get_elem?-some v.inodes dst dst_lt in
              elim (InodeType-cases x.0.inode_type) [
                | inr (blocks, size, t) ↦ rw (p, q, other, x.1, t, rename_node) (err-Sound c)
                | inl (es, t) ↦ elim (Option-cases (find_entry dst_name es)) [
                  | inr (taken, f) ↦ rw (p, q, other, x.1, t, f, rename_node) (err-Sound c)
                  | inl f ↦
                      rw (p, q, other, x.1, t, f, rename_node)
                        (move_entry-Sound v c src dst dst_name src_lt dst_lt src_path)
                ]
              ]
        ]
      ]
    ]
