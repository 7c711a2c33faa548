-- ===== src/Vfs/Ranked.antt =====
-- Trees without cycles, on which the walk of `remove_node` (virtual-fs/src/vfs.rs) ends.
use rustix_os.Prelude.{
  ℕ, zero, suc, ◌+◌, ◌-◌, ◌<◌, ◌≤◌, ◌≡◌, arith, Bool, true, ltb, not, ◌&&◌, Bool-cases,
  Option-cases, inl, inr, Option, none, some, List, [], ◌∷◌, length, get_elem?, lt-of_get_elem?,
}
use mathlib.Core.Path.{subst}
use rustix_os.Outcome.{ok, err, panic, Outcome-cases}
use rustix_os.Allocator.{MemoryAllocator, Run}
use rustix_os.Vfs.Inode.{
  Text, text_eq, InodeType, directory, file, InodeType-cases, Inode, VirtualFileSystem,
}
use rustix_os.Vfs.Path.{root_path, resolve_path}
use rustix_os.Vfs.Remove.{free_entries, free_inode, has_entries, after_free, remove_node}

-- There is an answer, and it has the property.
abbrev pub Answers {ℓ} : {A : Type ℓ} → (A → Type 0) → Option A → Type 0
Answers P none = ⊥
Answers P (some x) = P x

abbrev pub Gives {ℓ} : {A : Type ℓ} → Option A → Type 0
Gives o = Answers (λ x. Unit {0}) o

-- The entries of a directory of rank `r` have lower ranks.
abbrev pub EntriesFall : (ℕ → ℕ) → ℕ → List (Text × ℕ) → Type 0
EntriesFall rank r [] = Unit
EntriesFall rank r ((name, child) ∷ entries) = (rank child < r) × EntriesFall rank r entries

-- A numbering of the nodes, up to their count, that falls from a directory to what it holds: a table
-- has one where no directory is reached from itself.
pub record IsRanked (v : VirtualFileSystem) : Type 0 where
  pub rank : ℕ → ℕ
  pub low : (i : ℕ) → rank i ≤ length v.inodes
  pub falls :
      (i : ℕ) {node : Inode} {entries : List (Text × ℕ)}
      → get_elem? v.inodes i ≡ some node
      → node.inode_type ≡ directory entries
      → EntriesFall rank (rank i) entries

free_entries-Gives :
    (rank : ℕ → ℕ) (r : ℕ) (free_child : ℕ → MemoryAllocator → Option (Run (Unit {0})))
    (es : List (Text × ℕ)) (a : MemoryAllocator)
    → ((c : ℕ) (b : MemoryAllocator) → rank c < r → Gives (free_child c b))
    → EntriesFall rank r es
    → Gives (free_entries free_child es a)
unfolding free_entries
free_entries-Gives rank r free_child [] a each h = tt
free_entries-Gives rank r free_child ((name, c) ∷ es) a each (lt, h) =
    elim (Option-cases (free_child c a)) [
      | inl e ↦ absurd (subst Gives e (each c a lt))
      | inr ((o, a'), e) ↦ elim (Outcome-cases o) [
        | inl p ↦ rw (e, free_entries) (rw p tt)
        | inr (inl (x, p)) ↦ rw (e, free_entries) (rw p tt)
        | inr (inr (u, p)) ↦
            rw (e, free_entries) (rw p (free_entries-Gives rank r free_child es a' each h))
      ]
    ]

free_inode-Gives :
    (v : VirtualFileSystem) (ranked : IsRanked v) (fuel i : ℕ) (a : MemoryAllocator)
    → ranked.rank i < fuel
    → Gives (free_inode fuel v.inodes i a)
unfolding free_inode
free_inode-Gives v ranked zero i a lt = absurd (omega arith)
free_inode-Gives v ranked (suc fuel) i a lt = elim (Option-cases (get_elem? v.inodes i)) [
  | inl e ↦ rw (e, free_inode) tt
  | inr (node, e) ↦ elim (InodeType-cases node.inode_type) [
    | inr (blocks, size, t) ↦ rw (e, t, free_inode) tt
    | inl (es, t) ↦
        rw (e, t, free_inode)
          (free_entries-Gives ranked.rank (ranked.rank i) (free_inode fuel v.inodes) es a
            (λ c b low. free_inode-Gives v ranked fuel c b (omega arith)) (ranked.falls i e t))
  ]
]

after_free-Gives :
    (v : VirtualFileSystem) (path : Text) (o : Option (Run (Unit {0})))
    → Gives o
    → Gives (after_free v path o)
after_free-Gives v path none h = absurd h
after_free-Gives v path (some (ok u, a)) h = tt
after_free-Gives v path (some (err e, a)) h = tt
after_free-Gives v path (some (panic, a)) h = tt

-- On a tree without cycles, removal ends within its fuel.
pub remove_node-Gives :
    (v : VirtualFileSystem) (path : Text) (recursive : Bool) (a : MemoryAllocator)
    → IsRanked v
    → Gives (remove_node v path recursive a)
unfolding remove_node
remove_node-Gives v path recursive a ranked = elim (Bool-cases (text_eq path root_path)) [
  | inl root ↦ rw (root, remove_node) tt
  | inr other ↦ elim (Outcome-cases (resolve_path v path)) [
    | inl p ↦ rw (p, other, remove_node) tt
    | inr (inl (e, p)) ↦ rw (p, other, remove_node) tt
    | inr (inr (i, p)) ↦ elim (Option-cases (get_elem? v.inodes i)) [
      | inl e ↦ rw (p, e, other, remove_node) tt
      | inr (node, e) ↦ elim (Bool-cases (has_entries node.inode_type && not recursive)) [
        | inl full ↦ rw (p, e, full, other, remove_node) tt
        | inr fine ↦
            rw (p, e, fine, other, remove_node)
              (after_free-Gives v path (free_inode (length v.inodes + 1) v.inodes i a)
                (free_inode-Gives v ranked (length v.inodes + 1) i a (omega (arith, ranked.low i))))
      ]
    ]
  ]
]

-- Every entry of every directory points to a later node, as in tables in which nothing was moved.
abbrev pub entries_above : ℕ → List (Text × ℕ) → Bool
entries_above i [] = true
entries_above i ((name, child) ∷ entries) = ltb i child && entries_above i entries

abbrev pub points_above : ℕ → InodeType → Bool
points_above i (directory entries) = entries_above i entries
points_above i (file blocks size) = true

abbrev pub all_above : ℕ → List Inode → Bool
all_above i [] = true
all_above i (node ∷ nodes) = points_above i node.inode_type && all_above (i + 1) nodes

entries_above-EntriesFall :
    (n i : ℕ) (es : List (Text × ℕ))
    → i < n
    → entries_above i es ≡ true
    → EntriesFall (λ j. n - j) (n - i) es
entries_above-EntriesFall n i [] lt h = tt
entries_above-EntriesFall n i ((name, c) ∷ es) lt h =
    (ground (arith, h), entries_above-EntriesFall n i es lt (ground (arith, h)))

all_above-get :
    (k i : ℕ) (nodes : List Inode) {node : Inode} {es : List (Text × ℕ)}
    → all_above k nodes ≡ true
    → get_elem? nodes i ≡ some node
    → node.inode_type ≡ directory es
    → entries_above (k + i) es ≡ true
all_above-get k i [] h e t = ground (arith, e)
all_above-get k zero (x ∷ nodes) h e t = ground (arith, h, e, t)
all_above-get k (suc i) (x ∷ nodes) h e t =
    let rest : all_above (k + 1) nodes ≡ true = ground (arith, h) in
    let found = all_above-get (k + 1) i nodes rest e t in
    let same : k + 1 + i ≡ k + suc i = omega arith in rw same at found

pub all_above-IsRanked : (v : VirtualFileSystem) → all_above 0 v.inodes ≡ true → IsRanked v
all_above-IsRanked v h = record {
  rank = λ j. length v.inodes - j;
  low = λ i. omega arith;
  falls = λ i {entries = es} e t.
      let at_start : 0 + i ≡ i = omega arith in
      entries_above-EntriesFall (length v.inodes) i es (lt-of_get_elem? v.inodes i e)
        (rw at_start at (all_above-get 0 i v.inodes h e t));
}
