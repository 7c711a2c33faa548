-- ===== src/Shell/Descend.antt =====
-- `find_in_vfs` and `print_vfs_tree` end on trees without cycles.
use package.rustix_os.Prelude.{
  ℕ, zero, suc, ◌+◌, ◌<◌, arith, Option-cases, inl, inr, Option, none, some, List, [], ◌∷◌,
  get_elem?, ◌==◌, if◌then◌else◌,
}
use package.rustix_os.Vfs.Inode.{Text, InodeType-cases, VirtualFileSystem}
use package.rustix_os.Vfs.Copy.{child_path}
use package.rustix_os.Vfs.Ranked.{Gives, EntriesFall, IsRanked}
use package.rustix_os.Shell.Find.{
  append_lists, matching, find_entries, find_in_vfs, TreeLine, root_line, directory_line,
  print_entries, print_vfs_tree, tree_fuel,
}

append_lists-Gives {ℓ} :
    {A : Type ℓ} (o o' : Option (List A)) → Gives o → Gives o' → Gives (append_lists o o')
append_lists-Gives none o' h h' = absurd h
append_lists-Gives (some xs) none h h' = absurd h'
append_lists-Gives (some xs) (some ys) h h' = tt

module _ (rank : ℕ → ℕ) (r : ℕ) where
  find_entries-Gives :
      (descend : ℕ → Text → Option (List Text)) (path : Text) (es : List (Text × ℕ))
      → ((c : ℕ) (p : Text) → rank c < r → Gives (descend c p))
      → EntriesFall rank r es
      → Gives (find_entries descend path es)
  unfolding find_entries
  find_entries-Gives descend path [] each h = tt
  find_entries-Gives descend path ((name, c) ∷ es) each (lt, h) =
      append_lists-Gives (descend c (child_path path name)) (find_entries descend path es)
        (each c (child_path path name) lt) (find_entries-Gives descend path es each h)

  print_entries-Gives :
      (descend : ℕ → Option (List TreeLine)) (es : List (Text × ℕ))
      → ((c : ℕ) → rank c < r → Gives (descend c))
      → EntriesFall rank r es
      → Gives (print_entries descend es)
  unfolding print_entries
  print_entries-Gives descend [] each h = tt
  print_entries-Gives descend ((name, c) ∷ es) each (lt, h) =
      append_lists-Gives (descend c) (print_entries descend es) (each c lt)
        (print_entries-Gives descend es each h)

module _ (v : VirtualFileSystem) (ranked : IsRanked v) where
  find_below :
      (fuel i : ℕ) (path query : Text)
      → ranked.rank i < fuel
      → Gives (find_in_vfs fuel v i path query)
  unfolding find_in_vfs
  find_below zero i path query lt = absurd (omega arith)
  find_below (suc fuel) i path query lt = elim (Option-cases (get_elem? v.inodes i)) [
    | inl e ↦ rw (e, find_in_vfs) tt
    | inr (node, e) ↦ elim (InodeType-cases node.inode_type) [
      | inr (blocks, size, t) ↦ rw (e, t, find_in_vfs) tt
      | inl (es, t) ↦
          rw (e, t, find_in_vfs)
            (append_lists-Gives (some (matching path query node))
              (find_entries (λ c p. find_in_vfs fuel v c p query) path es) tt
              (find_entries-Gives ranked.rank (ranked.rank i) (λ c p. find_in_vfs fuel v c p query)
                path es (λ c p low. find_below fuel c p query (omega arith)) (ranked.falls i e t)))
    ]
  ]

  print_below : (fuel i indent : ℕ) → ranked.rank i < fuel → Gives (print_vfs_tree fuel v i indent)
  unfolding print_vfs_tree
  print_below zero i indent lt = absurd (omega arith)
  print_below (suc fuel) i indent lt = elim (Option-cases (get_elem? v.inodes i)) [
    | inl e ↦ rw (e, print_vfs_tree) tt
    | inr (node, e) ↦ elim (InodeType-cases node.inode_type) [
      | inr (blocks, size, t) ↦ rw (e, t, print_vfs_tree) tt
      | inl (es, t) ↦
          rw (e, t, print_vfs_tree)
            (append_lists-Gives
              (some ((if i == 0 then root_line else directory_line indent node.name) ∷ []))
              (print_entries (λ c. print_vfs_tree fuel v c (indent + 1)) es) tt
              (print_entries-Gives ranked.rank (ranked.rank i)
                (λ c. print_vfs_tree fuel v c (indent + 1)) es
                (λ c low. print_below fuel c (indent + 1) (omega arith)) (ranked.falls i e t)))
    ]
  ]

  pub find_in_vfs-Gives :
      (i : ℕ) (path query : Text) → Gives (find_in_vfs (tree_fuel v) v i path query)
  find_in_vfs-Gives i path query =
      find_below (tree_fuel v) i path query (omega (arith, ranked.low i))

  pub print_vfs_tree-Gives : (i indent : ℕ) → Gives (print_vfs_tree (tree_fuel v) v i indent)
  print_vfs_tree-Gives i indent = print_below (tree_fuel v) i indent (omega (arith, ranked.low i))
