-- ===== src/FileManager/Paths.antt =====
-- Entering a directory and leaving it again.
use package.rustix_os.Prelude.{
  ℕ, ◌≤◌, ◌≡◌, refl, sym, ap, ◌∙◌, arith, min, Bool, true, false, ◌==◌, Bool-cases, inl, inr, none,
  some, List, [], ◌∷◌, ◌++◌, length, length-append, take,
}
use package.rustix_os.Vfs.Inode.{Text, text_eq}
use package.rustix_os.Vfs.Path.{slash, root_path, is_empty, trim_end, split_last}
use package.rustix_os.Vfs.Copy.{child_path}
use package.rustix_os.Shell.Path.Canonical.{NoSlash}
use package.rustix_os.FileManager.Bytes.{take_short, length-store_bytes, take-store_bytes}
use package.rustix_os.FileManager.{
  FileManager, store_bytes, set_path, or_text, get_path, push_dir, pop_dir,
}

split_last-none : (name : Text) → NoSlash name → split_last name ≡ none
unfolding split_last
split_last-none [] h = refl
split_last-none (c ∷ s) h =
    let e : (c == slash) ≡ false = ground (arith, h.0) in rw (split_last-none s h.1, e) refl

split_last-append :
    (path name : Text) → NoSlash name → split_last (path ++ slash ∷ name) ≡ some (path, name)
unfolding split_last
split_last-append [] name h = rw (split_last-none name h) refl
split_last-append (c ∷ path) name h = rw (split_last-append path name h) refl

trim_end_name : (name : Text) → NoSlash name → trim_end name ≡ name
unfolding trim_end
trim_end_name [] h = refl
trim_end_name (c ∷ s) h =
    let e : (c == slash) ≡ false = ground (arith, h.0) in rw (trim_end_name s h.1, e) refl

not_root :
    (current name : Text)
    → is_empty current ≡ false
    → text_eq (current ++ slash ∷ name) root_path ≡ false
unfolding text_eq
not_root [] name h = absurd cc
not_root (c ∷ []) name h = ground arith
not_root (c ∷ d ∷ s) name h = ground arith

below_root : (name : Text) → is_empty name ≡ false → text_eq (slash ∷ name) root_path ≡ false
unfolding text_eq
below_root [] h = absurd cc
below_root (c ∷ s) h = ground arith

text_eq-root : (s : Text) → text_eq s root_path ≡ true → s ≡ root_path
unfolding text_eq
text_eq-root [] h = absurd cc
text_eq-root (c ∷ []) h = let e : c ≡ slash = ground (arith, h) in ap (λ b. b ∷ []) e
text_eq-root (c ∷ d ∷ s) h = absurd (ground (arith, h))

child_of_root :
    (current name : Text)
    → text_eq current root_path ≡ true
    → child_path current name ≡ slash ∷ name
unfolding child_path
child_of_root current name e = rw e refl

child_elsewhere :
    (current name : Text)
    → text_eq current root_path ≡ false
    → child_path current name ≡ current ++ slash ∷ name
unfolding child_path
child_elsewhere current name e = rw e refl

module _ (is_utf8 : List ℕ → Bool) where
  -- The path that is set is the path that is read, where it fits the buffer and is a text.
  pub get_path-set_path :
      (path : Text) (fm : FileManager)
      → length fm.path_buf ≡ 256
      → length path ≤ 256
      → is_utf8 path ≡ true
      → get_path is_utf8 (set_path path fm) ≡ path
  unfolding get_path set_path
  get_path-set_path path fm full short text =
      let n : min (min (length path) 256) 256 ≡ length path = omega arith in
      let stored : take (length path) (store_bytes 0 path fm.path_buf) ≡ path =
        ap (λ n. take n (store_bytes 0 path fm.path_buf)) (omega arith)
        ∙ take-store_bytes 0 path fm.path_buf (omega (arith, full)) in
      rw (n, take_short 256 path short, stored, text) refl

  -- In a directory that is not the root.
  pop_below :
      (current name : Text) (fm : FileManager)
      → length fm.path_buf ≡ 256
      → get_path is_utf8 fm ≡ current ++ slash ∷ name
      → NoSlash name
      → length current ≤ 256
      → is_utf8 current ≡ true
      → is_empty current ≡ false
      → get_path is_utf8 (pop_dir is_utf8 fm) ≡ current
  unfolding pop_dir
  pop_below current name fm full at_child plain short text filled =
      let e : text_eq (current ++ slash ∷ name) root_path ≡ false = not_root current name filled in
      rw (at_child, e, split_last-append current name plain, filled)
        (get_path-set_path current fm full short text)

  pop_root :
      (name : Text) (fm : FileManager)
      → length fm.path_buf ≡ 256
      → get_path is_utf8 fm ≡ slash ∷ name
      → NoSlash name
      → is_utf8 root_path ≡ true
      → is_empty name ≡ false
      → get_path is_utf8 (pop_dir is_utf8 fm) ≡ root_path
  unfolding pop_dir
  pop_root name fm full at_child plain text filled =
      rw (at_child, below_root name filled, split_last-append [] name plain)
        (get_path-set_path root_path fm full (omega arith) text)

  length-set_path :
      (path : Text) (fm : FileManager) → length (set_path path fm).path_buf ≡ length fm.path_buf
  unfolding set_path
  length-set_path path fm = length-store_bytes 0 (take 256 path) fm.path_buf

  length-path_buf-push_dir :
      (name : Text) (fm : FileManager)
      → length (push_dir is_utf8 name fm).path_buf ≡ length fm.path_buf
  unfolding push_dir
  length-path_buf-push_dir name fm =
      length-set_path
        (or_text is_utf8 (take 256 (child_path (get_path is_utf8 fm) (trim_end name))) []) fm

  get_path-push_dir :
      (name : Text) (fm : FileManager)
      → length fm.path_buf ≡ 256
      → NoSlash name
      → length (child_path (get_path is_utf8 fm) name) ≤ 256
      → is_utf8 (child_path (get_path is_utf8 fm) name) ≡ true
      → get_path is_utf8 (push_dir is_utf8 name fm) ≡ child_path (get_path is_utf8 fm) name
  unfolding push_dir
  get_path-push_dir name fm full plain short text =
      rw
        (
          trim_end_name name plain,
          take_short 256 (child_path (get_path is_utf8 fm) name) short,
          text,
        )
        (get_path-set_path (child_path (get_path is_utf8 fm) name) fm full short text)

  -- To enter a directory and to leave it again leads back to the path before, where the longer path
  -- fits its buffer of 256 bytes and both are texts.
  pub pop_dir-push_dir :
      (name : Text) (fm : FileManager)
      → length fm.path_buf ≡ 256
      → NoSlash name
      → is_empty name ≡ false
      → is_empty (get_path is_utf8 fm) ≡ false
      → length (child_path (get_path is_utf8 fm) name) ≤ 256
      → is_utf8 (get_path is_utf8 fm) ≡ true
      → is_utf8 (child_path (get_path is_utf8 fm) name) ≡ true
      → get_path is_utf8 (pop_dir is_utf8 (push_dir is_utf8 name fm)) ≡ get_path is_utf8 fm
  pop_dir-push_dir name fm full plain filled some_path short text text' =
      let current = get_path is_utf8 fm in
      let pushed = get_path-push_dir name fm full plain short text' in
      let full' = length-path_buf-push_dir name fm ∙ full in
      elim (Bool-cases (text_eq current root_path)) [
        | inl e ↦
            let root : current ≡ root_path = text_eq-root current e in
            pop_root name (push_dir is_utf8 name fm) full' (pushed ∙ child_of_root current name e)
              plain (rw (← root) text) filled
            ∙ sym root
        | inr e ↦
            pop_below current name (push_dir is_utf8 name fm) full'
              (pushed ∙ child_elsewhere current name e) plain
              (omega (
                arith,
                short,
                ap (λ (t : Text). length t) (child_elsewhere current name e),
                length-append current (slash ∷ name),
              ))
              text some_path
      ]
