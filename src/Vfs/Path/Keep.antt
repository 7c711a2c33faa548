-- ===== src/Vfs/Path/Keep.antt =====
-- Lookup reads directories only: what a file holds does not change it.
use rustix_os.Prelude.{
  ℕ, ◌≡◌, ◌∙◌, refl, ap, some, List, [], ◌∷◌, get_elem?, set, get_elem?-set_self, get_elem?-set_ne,
  lt-of_get_elem?, ℕ_discrete,
}
use mathlib.Core.Path.{fun_ext}
use rustix_os.Outcome.{Outcome, Error}
use rustix_os.Vfs.Inode.{Text, file, Inode}
use rustix_os.Vfs.Path.{enter, walk, split_slash, drop_empty, resolve_path}

-- The inode with other blocks and another size.
abbrev pub with_blocks : Inode → List ℕ → ℕ → Inode
with_blocks node blocks size = record node { inode_type = file blocks size }

module _ (inodes : List Inode) (idx : ℕ) (node : Inode) (old : List ℕ) (n : ℕ)
    (here : get_elem? inodes idx ≡ some node) (is_file : node.inode_type ≡ file old n)
    (blocks : List ℕ) (size : ℕ) where
  enter_same :
      (i : ℕ) (rest : ℕ → Outcome ℕ Error) (part : Text)
      → enter rest part (get_elem? (set inodes idx (with_blocks node blocks size)) i)
        ≡ enter rest part (get_elem? inodes i)
  unfolding enter
  enter_same i rest part = elim (ℕ_discrete idx i) [
    | yes e ↦ rw (← e) (
        rw (
          get_elem?-set_self inodes idx (with_blocks node blocks size)
              (lt-of_get_elem? inodes idx here),
          here,
          is_file,
          enter,
        ))
    | no ne ↦ ap (enter rest part) (get_elem?-set_ne inodes (with_blocks node blocks size) ne)
  ]

  pub walk-with_blocks :
      (i : ℕ) (parts : List Text)
      → walk (set inodes idx (with_blocks node blocks size)) i parts ≡ walk inodes i parts
  unfolding walk
  walk-with_blocks i [] = refl
  walk-with_blocks i (part ∷ parts) =
      ap (λ r. enter r part (get_elem? (set inodes idx (with_blocks node blocks size)) i))
        (fun_ext (λ c. walk-with_blocks c parts))
      ∙ enter_same i (λ c. walk inodes c parts) part

  -- Giving an inode that is a file other blocks and another size changes no path: each resolves to
  -- the same index or the same error as before.
  pub resolve_path-with_blocks :
      (path : Text)
      → resolve_path (record { inodes = set inodes idx (with_blocks node blocks size) }) path
        ≡ resolve_path (record { inodes = inodes }) path
  unfolding resolve_path
  resolve_path-with_blocks path = rw (walk-with_blocks 0 (drop_empty (split_slash path)))
