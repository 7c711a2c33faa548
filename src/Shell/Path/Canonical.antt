-- ===== src/Shell/Path/Canonical.antt =====
-- The paths that the shell hands to the file system have one spelling.
use package.rustix_os.Prelude.{
  ℕ, ◌≡◌, ◌≢◌, refl, arith, ◌⊎◌, inl, inr, false, ◌==◌, if◌then◌else◌, Bool-cases, if_lem, List, [],
  ◌∷◌, ◌++◌,
}
use package.rustix_os.Vfs.Inode.{Text, text_eq}
use package.rustix_os.Vfs.Path.{
  slash, root_path, starts_with_slash, is_empty, push_first, split_slash, drop_empty,
}
use package.rustix_os.Shell.Path.{
  dot, dot_dot, pop, take_segment, collapse, join, normalize_path, ends_with_slash,
  resolve_relative_path,
}

abbrev pub NoSlash : Text → Type 0
NoSlash [] = Unit {0}
NoSlash (c ∷ s) = (c ≢ slash) × NoSlash s

-- A name: neither empty nor a dot or two, and without a slash.
pub record IsPlain (s : Text) : Type 0 where
  pub no_slash : NoSlash s
  pub filled : is_empty s ≡ false
  pub no_dot : text_eq s dot ≡ false
  pub no_dot_dot : text_eq s dot_dot ≡ false

abbrev pub AllPlain : List Text → Type 0
AllPlain [] = Unit {0}
AllPlain (s ∷ ss) = IsPlain s × AllPlain ss

abbrev AllNoSlash : List Text → Type 0
AllNoSlash [] = Unit {0}
AllNoSlash (s ∷ ss) = NoSlash s × AllNoSlash ss

split_slash-AllNoSlash : (s : Text) → AllNoSlash (split_slash s)
unfolding split_slash
split_slash-AllNoSlash [] = (tt, tt)
split_slash-AllNoSlash (c ∷ s) = elim (Bool-cases (c == slash)) [
  | inl e ↦ rw e (tt, split_slash-AllNoSlash s)
  | inr e ↦
      rw e (push_first-AllNoSlash c (split_slash s) (ground (arith, e)) (split_slash-AllNoSlash s))
]
  where
    push_first-AllNoSlash :
        (c : ℕ) (ws : List Text) → c ≢ slash → AllNoSlash ws → AllNoSlash (push_first c ws)
    push_first-AllNoSlash c [] ne h = ((ne, tt), tt)
    push_first-AllNoSlash c (w ∷ ws) ne h = ((ne, h.0), h.1)

pop-AllPlain : (stack : List Text) → AllPlain stack → AllPlain (pop stack)
pop-AllPlain [] h = tt
pop-AllPlain (s ∷ below) h = h.1

take_segment-AllPlain :
    (stack : List Text) (s : Text) → AllPlain stack → NoSlash s → AllPlain (take_segment stack s)
unfolding take_segment
take_segment-AllPlain stack s h k = elim (Bool-cases (is_empty s)) [
  | inl e ↦ rw e h
  | inr e ↦ elim (Bool-cases (text_eq s dot)) [
    | inl d ↦ rw (e, d) h
    | inr d ↦ elim (Bool-cases (text_eq s dot_dot)) [
      | inl dd ↦ rw (e, d, dd) (pop-AllPlain stack h)
      | inr dd ↦ rw (e, d, dd) (record { no_slash = k; filled = e; no_dot = d; no_dot_dot = dd }, h)
    ]
  ]
]

collapse-AllPlain :
    (stack segments : List Text)
    → AllPlain stack
    → AllNoSlash segments
    → AllPlain (collapse stack segments)
unfolding collapse
collapse-AllPlain stack [] h k = h
collapse-AllPlain stack (s ∷ ss) h k =
    collapse-AllPlain (take_segment stack s) ss (take_segment-AllPlain stack s h k.0) k.1

split_slash_plain : (s : Text) → NoSlash s → split_slash s ≡ s ∷ []
unfolding split_slash
split_slash_plain [] h = refl
split_slash_plain (c ∷ s) h =
    let e : (c == slash) ≡ false = ground (arith, h.0) in rw (e, split_slash_plain s h.1) refl

push_first_twice :
    (c d : ℕ) (ps ws : List Text)
    → push_first c (push_first d ps ++ ws) ≡ push_first c (push_first d ps) ++ ws
push_first_twice c d [] ws = refl
push_first_twice c d (p ∷ ps) ws = refl

push_first-append :
    (c : ℕ) (s : Text) (ws : List Text)
    → push_first c (split_slash s ++ ws) ≡ push_first c (split_slash s) ++ ws
unfolding split_slash
push_first-append c [] ws = refl
push_first-append c (d ∷ s) ws = elim (Bool-cases (d == slash)) [
  | inl e ↦ rw e refl
  | inr e ↦ rw e (push_first_twice c d (split_slash s) ws)
]

split_slash-append : (s t : Text) → split_slash (s ++ slash ∷ t) ≡ split_slash s ++ split_slash t
unfolding split_slash
split_slash-append [] t = refl
split_slash-append (c ∷ s) t = elim (Bool-cases (c == slash)) [
  | inl e ↦ rw (e, split_slash-append s t) refl
  | inr e ↦ rw (e, split_slash-append s t) (push_first-append c s (split_slash t))
]

collapse-append :
    (stack xs : List Text) (s : Text)
    → collapse stack (xs ++ s ∷ []) ≡ take_segment (collapse stack xs) s
unfolding collapse
collapse-append stack [] s = refl
collapse-append stack (x ∷ xs) s = collapse-append (take_segment stack x) xs s

take_segment_plain : (stack : List Text) (s : Text) → IsPlain s → take_segment stack s ≡ s ∷ stack
unfolding take_segment
take_segment_plain stack s h = rw (h.filled, h.no_dot, h.no_dot_dot) refl

collapse_nothing : collapse [] (split_slash []) ≡ []
unfolding collapse split_slash take_segment
collapse_nothing = refl

-- What is joined is found again.
pub collapse-join :
    (stack : List Text) → AllPlain stack → collapse [] (split_slash (join stack)) ≡ stack
unfolding join
collapse-join [] h = collapse_nothing
collapse-join (s ∷ below) h =
    rw
      (
        split_slash-append (join below) s,
        split_slash_plain s h.0.no_slash,
        collapse-append [] (split_slash (join below)) s,
        collapse-join below h.1,
      )
      (take_segment_plain below s h.0)

-- The root, or names with a slash before each.
pub data IsCanonical : Text → Type 0 where
  of_root : IsCanonical root_path
  of_names : (s : Text) (below : List Text) → AllPlain (s ∷ below) → IsCanonical (join (s ∷ below))

stack-IsCanonical :
    (stack : List Text)
    → AllPlain stack
    → IsCanonical (if is_empty stack then root_path else join stack)
stack-IsCanonical [] h = of_root
stack-IsCanonical (s ∷ below) h = of_names s below h

-- Whatever the path, the normalized one has no empty name, no dot and no two dots.
pub normalize_path-IsCanonical : (path : Text) → IsCanonical (normalize_path path)
unfolding normalize_path
normalize_path-IsCanonical path =
    stack-IsCanonical (collapse [] (split_slash path))
      (collapse-AllPlain [] (split_slash path) tt (split_slash-AllNoSlash path))

normalize_root : normalize_path root_path ≡ root_path
unfolding normalize_path split_slash collapse take_segment
normalize_root = refl

-- A path of that form is left as it is.
pub normalize_canonical : {path : Text} → IsCanonical path → normalize_path path ≡ path
unfolding normalize_path
normalize_canonical of_root = normalize_root
normalize_canonical (of_names s below h) = rw (collapse-join (s ∷ below) h) refl

-- To normalize a path a second time changes nothing.
pub normalize_path_idem : (path : Text) → normalize_path (normalize_path path) ≡ normalize_path path
normalize_path_idem path = normalize_canonical (normalize_path-IsCanonical path)

pub resolve_relative_path-IsCanonical :
    (cwd path : Text) → IsCanonical (resolve_relative_path cwd path)
unfolding resolve_relative_path
resolve_relative_path-IsCanonical cwd path =
    if_lem IsCanonical (starts_with_slash path) (normalize_path-IsCanonical path) (
      normalize_path-IsCanonical (if ends_with_slash cwd then cwd ++ path else cwd ++ slash ∷ path))

drop_empty-append_filled :
    (ws : List Text) (s : Text) → is_empty s ≡ false → drop_empty (ws ++ s ∷ []) ≢ []
unfolding drop_empty
drop_empty-append_filled [] s h = rw h (λ e. absurd cc)
drop_empty-append_filled (w ∷ ws) s h =
    if_lem (λ (r : List Text). r ≢ []) (is_empty w) (drop_empty-append_filled ws s h)
      (λ e. absurd cc)

names_left :
    {path : Text} → IsCanonical path → (path ≡ root_path) ⊎ (drop_empty (split_slash path) ≢ [])
unfolding join
names_left of_root = inl refl
names_left (of_names s below h) = inr (
    rw (split_slash-append (join below) s, split_slash_plain s h.0.no_slash)
      (drop_empty-append_filled (split_slash (join below)) s h.0.filled))

-- The path of a command is exactly the root's, or leads through at least one name: no other spelling
-- of the root gets past the guards of `remove_node` and `rename_node`.
pub resolve_relative_path_root :
    (cwd path : Text)
    → (resolve_relative_path cwd path ≡ root_path)
      ⊎ (drop_empty (split_slash (resolve_relative_path cwd path)) ≢ [])
resolve_relative_path_root cwd path = names_left (resolve_relative_path-IsCanonical cwd path)
