-- ===== src/Shell/Run/Reach.antt =====
-- The commands of the shell, as steps of the kernel.
use Prim.Native.String.{String}
use mathlib.Core.Path.{subst}
use package.rustix_os.Prelude.{
  ℕ, ◌≡◌, refl, Bool, true, false, if_lem, Option, none, some, List, [], ◌∷◌, length,
}
use package.rustix_os.Prelude.Codes.{codes}
use package.rustix_os.Outcome.{Outcome, ok, err, panic, Error}
use package.rustix_os.Allocator.Safe.{Returned, Any}
use package.rustix_os.Vfs.Inode.{Text, text_eq}
use package.rustix_os.Vfs.Path.{split_parent}
use package.rustix_os.Vfs.Tree
use package.rustix_os.Vfs.Tree.{mkdir, create_file, rename_node}
use package.rustix_os.Vfs.Write.{VfsRun, write_file}
use package.rustix_os.Vfs.Read.{ReadReport, read_file}
use package.rustix_os.Vfs.Remove.{remove_node}
use package.rustix_os.Vfs.Copy.{copy_file}
use package.rustix_os.Vfs.Closed.Tree.{create-Sound}
use package.rustix_os.Vfs.Closed.Tree.Rename.{rename_node-Sound}
use package.rustix_os.Vfs.Closed.Files.{Keeps, write_file-Keeps}
use package.rustix_os.Vfs.Closed.Files.Read.{Whenever, read_file-Keeps}
use package.rustix_os.Vfs.Closed.Files.Remove.{remove_node-Keeps, copy_file-Keeps}
use package.rustix_os.Core.Reach
use package.rustix_os.Core.Reach.{Reach-IsValid}
use package.rustix_os.Shell.Command.{
  Command, cmd_rm, cmd_cp, cmd_mv, cmd_write, cmd_mkdir, cmd_touch, Reply, usage, done, wrote,
}
use package.rustix_os.Shell.Path.{resolve_relative_path}
use package.rustix_os.Shell.Path.Canonical.{IsCanonical}
use package.rustix_os.Vfs.Ranked.{Answers, Gives, IsRanked, remove_node-Gives}
use package.rustix_os.Shell.Handle.{
  Shell, reply, after_tree, after_files, after_fuel, show_file, remove_path, remove, copy,
  write_text, move, make_node,
}
use package.rustix_os.Shell.Args.{join_words}

-- A state of the shell over a kernel that can be reached, in a working directory with one spelling.
pub record IsSettled (debug : ℕ → String) (s : Shell) : Type 0 where
  pub reached : Reach.Reach debug s.core
  pub canonical : IsCanonical s.cwd

-- What a command leaves: no panic, and a settled state.
pub record Settles (debug : ℕ → String) (r : Outcome Reply Error × Shell) : Type 0 where
  pub returned : Returned Any r.0
  pub settled : IsSettled debug r.1

module _ {debug : ℕ → String} where
  after_tree-Settles :
      {A : Type 0} (Post : A → Type 0) (cmd : Command) (good : Reply) (s : Shell) (r : Tree.Run A)
      → IsCanonical s.cwd
      → Returned Post r.0
      → Reach.Reach debug (record s.core { vfs = r.1 })
      → Answers (Settles debug) (after_tree cmd good s r)
  after_tree-Settles Post cmd good s (ok x, v) c h k = record {
    returned = tt;
    settled = record { reached = k; canonical = c };
  }
  after_tree-Settles Post cmd good s (err e, v) c h k = record {
    returned = tt;
    settled = record { reached = k; canonical = c };
  }
  after_tree-Settles Post cmd good s (panic, v) c h k = absurd h

  after_files-Settles :
      {A : Type 0} (Post : A → Type 0) (cmd : Command) (good : A → Reply) (s : Shell) (r : VfsRun A)
      → IsCanonical s.cwd
      → Returned Post r.0
      → Reach.Reach debug (record s.core { vfs = r.1; allocator = r.2 })
      → Answers (Settles debug) (after_files cmd good s r)
  after_files-Settles Post cmd good s (ok x, v, a) c h k = record {
    returned = tt;
    settled = record { reached = k; canonical = c };
  }
  after_files-Settles Post cmd good s (err e, v, a) c h k = record {
    returned = tt;
    settled = record { reached = k; canonical = c };
  }
  after_files-Settles Post cmd good s (panic, v, a) c h k = absurd h

  after_fuel-Settles :
      {A : Type 0} (Post : A → Type 0) (cmd : Command) (good : A → Reply) (s : Shell)
      (o : Option (VfsRun A))
      → IsCanonical s.cwd
      → Gives o
      → ((r : VfsRun A)
          → o ≡ some r
          → Returned Post r.0 × Reach.Reach debug (record s.core { vfs = r.1; allocator = r.2 }))
      → Answers (Settles debug) (after_fuel cmd good s o)
  after_fuel-Settles Post cmd good s none c g k = absurd g
  after_fuel-Settles Post cmd good s (some r) c g k =
      let x = k r refl in after_files-Settles Post cmd good s r c x.0 x.1

  pub reply-Settles :
      (r : Reply) (s : Shell) → IsSettled debug s → Answers (Settles debug) (reply r s)
  reply-Settles r s h = record { returned = tt; settled = h }

  pub show_file-Settles :
      (cmd : Command) (shown : Text → List ℕ → Reply) (a : Option Text) (s : Shell)
      → IsSettled debug s
      → Answers (Settles debug) (show_file cmd shown a s)
  show_file-Settles cmd shown none s h = reply-Settles (usage cmd) s h
  show_file-Settles cmd shown (some a) s h =
      let v = Reach-IsValid h.reached in
      let path = resolve_relative_path s.cwd a in
      let k = read_file-Keeps s.core.vfs path s.core.allocator v.tree v.memory in
      after_fuel-Settles Any cmd (λ (r : List ℕ × ReadReport). shown path r.0) s
        (read_file s.core.vfs path s.core.allocator) h.canonical (rw k.1 tt)
        (λ r e. (
          (subst (Whenever (Keeps Any (length s.core.vfs.inodes))) e (rw k.1 k.2)).returned,
          Reach.next h.reached (Reach.has_read path r e),
        ))

  remove_path-Settles :
      (a : Text) (recursive : Bool) (s : Shell)
      → IsSettled debug s
      → IsRanked s.core.vfs
      → Answers (Settles debug) (remove_path a recursive s)
  remove_path-Settles a recursive s h ranked =
      let v = Reach-IsValid h.reached in
      let path = resolve_relative_path s.cwd a in
      after_fuel-Settles Any cmd_rm (λ u. done cmd_rm path) s
        (remove_node s.core.vfs path recursive s.core.allocator) h.canonical
        (remove_node-Gives s.core.vfs path recursive s.core.allocator ranked)
        (λ r e. (
          (subst (Whenever (Keeps Any (length s.core.vfs.inodes))) e (
              remove_node-Keeps s.core.vfs path recursive s.core.allocator v.tree
                v.memory)).returned,
          Reach.next h.reached (Reach.removed path recursive r e),
        ))

  pub remove-Settles :
      (args : List Text) (s : Shell)
      → IsSettled debug s
      → IsRanked s.core.vfs
      → Answers (Settles debug) (remove args s)
  remove-Settles [] s h ranked = reply-Settles (usage cmd_rm) s h
  remove-Settles (a ∷ []) s h ranked =
      if_lem (Answers (Settles debug)) (text_eq a (codes "-rf")) (reply-Settles (usage cmd_rm) s h)
        (remove_path-Settles a false s h ranked)
  remove-Settles (a ∷ b ∷ args) s h ranked =
      if_lem (Answers (Settles debug)) (text_eq a (codes "-rf"))
        (remove_path-Settles b true s h ranked) (remove_path-Settles a false s h ranked)

  pub copy-Settles :
      (args : List Text) (s : Shell) → IsSettled debug s → Answers (Settles debug) (copy args s)
  copy-Settles [] s h = reply-Settles (usage cmd_cp) s h
  copy-Settles (a ∷ []) s h = reply-Settles (usage cmd_cp) s h
  copy-Settles (a ∷ b ∷ args) s h =
      let v = Reach-IsValid h.reached in
      let path = resolve_relative_path s.cwd a in
      let p = split_parent b in
      let k = copy_file-Keeps s.core.vfs path p.0 p.1 s.core.allocator 1000 v.tree v.memory in
      after_fuel-Settles Any cmd_cp (λ u. done cmd_cp b) s
        (copy_file s.core.vfs path p.0 p.1 s.core.allocator 1000) h.canonical (rw k.1 tt)
        (λ r e. (
          (subst (Whenever (Keeps Any (length s.core.vfs.inodes))) e (rw k.1 k.2)).returned,
          Reach.next h.reached (Reach.copied path p.0 p.1 1000 r e),
        ))

  pub write_text-Settles :
      (args : List Text) (s : Shell)
      → IsSettled debug s
      → Answers (Settles debug) (write_text args s)
  write_text-Settles [] s h = reply-Settles (usage cmd_write) s h
  write_text-Settles (a ∷ []) s h = reply-Settles (usage cmd_write) s h
  write_text-Settles (a ∷ w ∷ ws) s h =
      let v = Reach-IsValid h.reached in
      let path = resolve_relative_path s.cwd a in
      let text = join_words (w ∷ ws) in
      let r = write_file s.core.vfs path text s.core.allocator 1000 in
      after_files-Settles Any cmd_write (λ u. wrote (length text) path) s r h.canonical
        (write_file-Keeps s.core.vfs path text s.core.allocator 1000 v.tree v.memory).returned
        (Reach.next h.reached (Reach.written path text 1000 r refl))

  pub move-Settles :
      (args : List Text) (s : Shell) → IsSettled debug s → Answers (Settles debug) (move args s)
  move-Settles [] s h = reply-Settles (usage cmd_mv) s h
  move-Settles (a ∷ []) s h = reply-Settles (usage cmd_mv) s h
  move-Settles (a ∷ b ∷ args) s h =
      let v = Reach-IsValid h.reached in
      let path = resolve_relative_path s.cwd a in
      let p = split_parent b in
      after_tree-Settles Any cmd_mv (done cmd_mv b) s (rename_node s.core.vfs path p.0 p.1)
        h.canonical (rename_node-Sound s.core.vfs path p.0 p.1 v.tree).returned
        (Reach.next h.reached (Reach.renamed path p.0 p.1))

  -- `mkdir` and `touch`.
  pub make_node-Settles :
      (args : List Text) (s : Shell)
      → IsSettled debug s
      → Answers (Settles debug) (make_node cmd_mkdir mkdir args s)
        × Answers (Settles debug) (make_node cmd_touch create_file args s)
  make_node-Settles [] s h =
      (reply-Settles (usage cmd_mkdir) s h, reply-Settles (usage cmd_touch) s h)
  make_node-Settles (a ∷ args) s h =
      let v = Reach-IsValid h.reached in
      let path = resolve_relative_path s.cwd a in
      let p = split_parent path in
      let made = create-Sound s.core.vfs p.0 p.1 v.tree in
      let n = length s.core.vfs.inodes in
      (
        after_tree-Settles (λ i. i ≡ n) cmd_mkdir (done cmd_mkdir path) s (mkdir s.core.vfs p.0 p.1)
            h.canonical made.0.returned (Reach.next h.reached (Reach.made_directory p.0 p.1)),
        after_tree-Settles (λ i. i ≡ n) cmd_touch (done cmd_touch path) s
            (create_file s.core.vfs p.0 p.1) h.canonical made.1.returned
            (Reach.next h.reached (Reach.made_file p.0 p.1)),
      )
