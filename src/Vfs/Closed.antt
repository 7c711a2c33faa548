-- ===== src/Vfs/Closed.antt =====
-- A table of inodes in which every number points to something: the entries of directories to
-- inodes, the blocks of files to frames. Lookup in such a table does not panic.
pub mod Tree
pub mod Files
use package.rustix_os.Prelude.{
  ℕ, zero, suc, ◌+◌, ◌≤◌, ◌<◌, ◌≡◌, refl, arith, Bool-cases, Option-cases, inl, inr, not, Option,
  none, some, List, [], ◌∷◌, ◌++◌, length, get_elem?, get_elem?-some, set,
}
use package.rustix_os.Outcome.{Outcome, ok, err, panic, Error}
use package.rustix_os.Allocator.{total_pages}
use package.rustix_os.Allocator.Safe.{Returned}
use package.rustix_os.Vfs.Inode.{
  Text, text_eq, InodeType, directory, file, InodeType-cases, Inode, VirtualFileSystem,
}
use package.rustix_os.Vfs.Path.{
  starts_with_slash, root_path, find_entry, enter, walk, split_slash, drop_empty, resolve_path,
}

abbrev pub EntriesBelow : ℕ → List (Text × ℕ) → Type 0
EntriesBelow n [] = Unit
EntriesBelow n ((name, i) ∷ es) = (i < n) × EntriesBelow n es

abbrev pub InPool : List ℕ → Type 0
InPool [] = Unit
InPool (b ∷ bs) = (b < total_pages) × InPool bs

abbrev pub Points : ℕ → InodeType → Type 0
Points n (directory es) = EntriesBelow n es
Points n (file blocks size) = InPool blocks

abbrev pub AllPoint : ℕ → List Inode → Type 0
AllPoint n [] = Unit
AllPoint n (x ∷ xs) = Points n x.inode_type × AllPoint n xs

pub record IsClosed (v : VirtualFileSystem) : Type 0 where
  pub rooted : 0 < length v.inodes
  pub points : AllPoint (length v.inodes) v.inodes

pub AllPoint-get :
    (n : ℕ) (xs : List Inode) (i : ℕ) {node : Inode}
    → AllPoint n xs
    → get_elem? xs i ≡ some node
    → Points n node.inode_type
AllPoint-get n [] i h e = ground (arith, e)
AllPoint-get n (x ∷ xs) zero h e = ground (arith, e, h)
AllPoint-get n (x ∷ xs) (suc i) h e = AllPoint-get n xs i h.1 e

pub AllPoint-set :
    (n : ℕ) (xs : List Inode) (i : ℕ) (node : Inode)
    → AllPoint n xs
    → Points n node.inode_type
    → AllPoint n (set xs i node)
AllPoint-set n [] i node h p = tt
AllPoint-set n (x ∷ xs) zero node h p = (p, h.1)
AllPoint-set n (x ∷ xs) (suc i) node h p = (h.0, AllPoint-set n xs i node h.1 p)

pub AllPoint-append :
    (n : ℕ) (xs : List Inode) (node : Inode)
    → AllPoint n xs
    → Points n node.inode_type
    → AllPoint n (xs ++ node ∷ [])
AllPoint-append n [] node h p = (p, tt)
AllPoint-append n (x ∷ xs) node h p = (h.0, AllPoint-append n xs node h.1 p)

pub EntriesBelow-mono :
    {n m : ℕ} (es : List (Text × ℕ)) → n ≤ m → EntriesBelow n es → EntriesBelow m es
EntriesBelow-mono [] le h = tt
EntriesBelow-mono ((name, i) ∷ es) le (lt, h) = (omega arith, EntriesBelow-mono es le h)

Points-mono : {n m : ℕ} (t : InodeType) → n ≤ m → Points n t → Points m t
Points-mono (directory es) le h = EntriesBelow-mono es le h
Points-mono (file blocks size) le h = h

pub AllPoint-mono : {n m : ℕ} (xs : List Inode) → n ≤ m → AllPoint n xs → AllPoint m xs
AllPoint-mono [] le h = tt
AllPoint-mono (x ∷ xs) le (p, h) = (Points-mono x.inode_type le p, AllPoint-mono xs le h)

find_entry-lt :
    (n : ℕ) (part : Text) (es : List (Text × ℕ)) {c : ℕ}
    → EntriesBelow n es
    → find_entry part es ≡ some c
    → c < n
unfolding find_entry
find_entry-lt n part [] h e = ground (arith, e)
find_entry-lt n part ((name, i) ∷ es) (lt, h) e = elim (Bool-cases (text_eq name part)) [
  | inl same ↦ ground (arith, e, same)
  | inr other ↦ find_entry-lt n part es h (rw other at e)
]

-- The walk stays in the table.
pub walk-Returned :
    (inodes : List Inode) (i : ℕ) (parts : List Text)
    → AllPoint (length inodes) inodes
    → i < length inodes
    → Returned (λ j. j < length inodes) (walk inodes i parts)
unfolding walk enter
walk-Returned inodes i [] h lt = lt
walk-Returned inodes i (part ∷ parts) h lt =
    let x = get_elem?-some inodes i lt in
    let p = AllPoint-get (length inodes) inodes i h x.1 in
    elim (InodeType-cases x.0.inode_type) [
      | inr (blocks, size, t) ↦ rw (x.1, t, enter) tt
      | inl (es, t) ↦
          let below : EntriesBelow (length inodes) es = rw t at p in
          elim (Option-cases (find_entry part es)) [
            | inl f ↦ rw (x.1, t, enter) (rw f tt)
            | inr (c, f) ↦
                rw (x.1, t, enter)
                  (rw f (
                    walk-Returned inodes c parts h (find_entry-lt (length inodes) part es below f)))
          ]
    ]

pub resolve_path-Returned :
    (v : VirtualFileSystem) (path : Text)
    → IsClosed v
    → Returned (λ j. j < length v.inodes) (resolve_path v path)
unfolding resolve_path
resolve_path-Returned v path c = elim (Bool-cases (not (starts_with_slash path))) [
  | inl e ↦ rw (e, resolve_path) tt
  | inr e ↦ elim (Bool-cases (text_eq path root_path)) [
    | inl r ↦ rw (e, resolve_path) (rw r c.rooted)
    | inr r ↦
        rw (e, resolve_path)
          (rw r (walk-Returned v.inodes 0 (drop_empty (split_slash path)) c.points c.rooted))
  ]
]
