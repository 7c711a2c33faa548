-- ===== src/Shell/Run/Settled.antt =====
-- Whatever is typed, the shell leaves the kernel in a state that its operations can reach.
use Prim.Native.String.{String}
use package.rustix_os.Prelude.{
  ℕ, ◌<◌, ◌≡◌, refl, Bool, if_lem, inl, inr, Option, none, some, List, [], ◌∷◌, length, get_elem?,
  get_elem?-some,
}
use package.rustix_os.Prelude.Codes.{codes}
use package.rustix_os.Outcome.{Outcome, ok, err, panic, Error}
use package.rustix_os.Allocator.Safe.{Returned, Any}
use package.rustix_os.Vfs.Inode.{Text, text_eq, Inode, is_directory, InodeType-cases}
use package.rustix_os.Vfs.Path.{root_path, resolve_path}
use package.rustix_os.Vfs.Closed.{EntriesBelow, AllPoint-get, resolve_path-Returned}
use package.rustix_os.Vfs.Ranked.{Answers, Gives, IsRanked}
use package.rustix_os.Core.{SystemCore, inject_memory_flip}
use package.rustix_os.Core.Valid.{inject_memory_flip-Returned}
use package.rustix_os.Core.Reach
use package.rustix_os.Core.Reach.{Reach-IsValid}
use package.rustix_os.Shell.Command.{
  cmd_help, cmd_loadkeys, cmd_status, cmd_tasks, cmd_usermode, cmd_run, cmd_inject_flip, cmd_vfs,
  cmd_ls, cmd_mkdir, cmd_touch, cmd_write, cmd_rm, cmd_cat, cmd_pwd, cmd_cd, cmd_echo, cmd_cp,
  cmd_mv, cmd_uname, cmd_uptime, cmd_free, cmd_whoami, cmd_hostname, cmd_history, cmd_head,
  cmd_tail, cmd_wc, cmd_find, cmd_clear, cmd_unknown, launched, contents, Command, usage,
  command_of,
}
use package.rustix_os.Shell.Args.{parse_n_flag, first_arg, or_default}
use package.rustix_os.Shell.Path.{resolve_relative_path}
use package.rustix_os.Shell.Path.Canonical.{IsCanonical, resolve_relative_path-IsCanonical}
use package.rustix_os.Shell.Find.{find_in_vfs, TreeLine, print_vfs_tree, tree_fuel}
use package.rustix_os.Shell.Descend.{find_in_vfs-Gives, print_vfs_tree-Gives}
use package.rustix_os.Shell.Handle.{
  Shell, loadkeys, after_flip, inject_flip, show_tree, list_children, list_node, list_path,
  change_directory, show_found, find, first_allocated,
}
use package.rustix_os.Shell.Run.{run_command, handle_command}
use package.rustix_os.Shell.Run.Reach.{
  IsSettled, Settles, reply-Settles, show_file-Settles, remove-Settles, copy-Settles,
  write_text-Settles, move-Settles, make_node-Settles,
}

list_children_closed :
    (inodes : List Inode) (entries : List (Text × ℕ))
    → EntriesBelow (length inodes) entries
    → (xs : List (Text × Bool)) × (list_children inodes entries ≡ some xs)
unfolding list_children
list_children_closed inodes [] h = ([], refl)
list_children_closed inodes ((name, child) ∷ entries) h =
    let node = get_elem?-some inodes child h.0 in
    let rest = list_children_closed inodes entries h.1 in
    ((name, is_directory node.0.inode_type) ∷ rest.0, rw (node.1, rest.1, list_children) refl)

module _ {debug : ℕ → String} where
  loadkeys-Settles :
      (args : List Text) (s : Shell) → IsSettled debug s → Answers (Settles debug) (loadkeys args s)
  loadkeys-Settles [] s h = reply-Settles (usage cmd_loadkeys) s h
  loadkeys-Settles (a ∷ args) s h =
      if_lem (Answers (Settles debug)) (text_eq a (codes "us"))
        (record {
          returned = tt;
          settled = record { reached = h.reached; canonical = h.canonical };
        })
        (if_lem (Answers (Settles debug)) (text_eq a (codes "trq"))
          (record {
            returned = tt;
            settled = record { reached = h.reached; canonical = h.canonical };
          })
          (record { returned = tt; settled = h }))

  show_tree-Settles :
      (o : Option (List TreeLine)) (s : Shell)
      → IsSettled debug s
      → Gives o
      → Answers (Settles debug) (show_tree o s)
  show_tree-Settles none s h g = absurd g
  show_tree-Settles (some lines) s h g = reply-Settles _ s h

  show_found-Settles :
      (o : Option (List Text)) (s : Shell)
      → IsSettled debug s
      → Gives o
      → Answers (Settles debug) (show_found o s)
  show_found-Settles none s h g = absurd g
  show_found-Settles (some paths) s h g = reply-Settles _ s h

  find-Settles :
      (args : List Text) (s : Shell)
      → IsSettled debug s
      → IsRanked s.core.vfs
      → Answers (Settles debug) (find args s)
  find-Settles [] s h ranked = reply-Settles _ s h
  find-Settles (a ∷ args) s h ranked =
      show_found-Settles (find_in_vfs (tree_fuel s.core.vfs) s.core.vfs 0 root_path a) s h
        (find_in_vfs-Gives s.core.vfs ranked 0 root_path a)

  list_node-Settles :
      (path : Text) (idx : ℕ) (s : Shell)
      → IsSettled debug s
      → idx < length s.core.vfs.inodes
      → Answers
          (Settles debug)
          (list_node path s.core.vfs.inodes (get_elem? s.core.vfs.inodes idx) s)
  list_node-Settles path idx s h lt =
      let closed = (Reach-IsValid h.reached).tree in
      let x = get_elem?-some s.core.vfs.inodes idx lt in
      let points =
        AllPoint-get (length s.core.vfs.inodes) s.core.vfs.inodes idx closed.points x.1 in
      rw x.1 (elim (InodeType-cases x.0.inode_type) [
        | inl (entries, t) ↦
            let children = list_children_closed s.core.vfs.inodes entries (rw t at points) in
            rw (t, children.1, list_node) (reply-Settles _ s h)
        | inr (blocks, size, t) ↦ rw (t, list_node) (reply-Settles _ s h)
      ])

  list_path-Settles :
      (path : Text) (r : Outcome ℕ Error) (s : Shell)
      → IsSettled debug s
      → Returned (λ j. j < length s.core.vfs.inodes) r
      → Answers (Settles debug) (list_path path r s)
  list_path-Settles path (ok idx) s h lt = list_node-Settles path idx s h lt
  list_path-Settles path (err e) s h lt = reply-Settles _ s h
  list_path-Settles path panic s h lt = absurd lt

  change_directory-Settles :
      (target path : Text) (r : Outcome ℕ Error) (s : Shell)
      → IsSettled debug s
      → IsCanonical path
      → Returned (λ j. j < length s.core.vfs.inodes) r
      → Answers (Settles debug) (change_directory target path r s)
  change_directory-Settles target path (ok idx) s h c lt =
      let x = get_elem?-some s.core.vfs.inodes idx lt in
      rw x.1 (
        if_lem (Answers (Settles debug)) (is_directory x.0.inode_type)
          (record { returned = tt; settled = record { reached = h.reached; canonical = c } })
          (record { returned = tt; settled = h }))
  change_directory-Settles target path (err e) s h c lt = reply-Settles _ s h
  change_directory-Settles target path panic s h c lt = absurd lt

  after_flip-Settles :
      (frame : ℕ) (s : Shell) (r : Outcome (Unit {0}) Error × SystemCore)
      → IsCanonical s.cwd
      → Returned Any r.0
      → Reach.Reach debug r.1
      → Answers (Settles debug) (after_flip frame s r)
  after_flip-Settles frame s (ok u, core) c h k = record {
    returned = tt;
    settled = record { reached = k; canonical = c };
  }
  after_flip-Settles frame s (err e, core) c h k = record {
    returned = tt;
    settled = record { reached = k; canonical = c };
  }
  after_flip-Settles frame s (panic, core) c h k = absurd h

  inject_flip-Settles :
      (o : Option ℕ) (s : Shell) → IsSettled debug s → Answers (Settles debug) (inject_flip o s)
  inject_flip-Settles none s h = reply-Settles _ s h
  inject_flip-Settles (some frame) s h =
      after_flip-Settles frame s (inject_memory_flip s.core frame 8 3) h.canonical
        (inject_memory_flip-Returned s.core frame 8 3 (Reach-IsValid h.reached))
        (Reach.next h.reached (Reach.flipped frame 8 3))

  run_command-Settles :
      (name : Text) (cmd : Command) (args history : List Text) (ticks : ℕ) (s : Shell)
      → IsSettled debug s
      → IsRanked s.core.vfs
      → Answers (Settles debug) (run_command name cmd args history ticks s)
  unfolding run_command
  run_command-Settles name cmd_help args history ticks s h ranked = reply-Settles _ s h
  run_command-Settles name cmd_loadkeys args history ticks s h ranked = loadkeys-Settles args s h
  run_command-Settles name cmd_status args history ticks s h ranked = reply-Settles _ s h
  run_command-Settles name cmd_tasks args history ticks s h ranked = reply-Settles _ s h
  run_command-Settles name cmd_usermode args history ticks s h ranked = reply-Settles _ s h
  run_command-Settles name cmd_run args history ticks s h ranked =
      show_file-Settles _ launched (first_arg args) s h
  run_command-Settles name cmd_inject_flip args history ticks s h ranked =
      inject_flip-Settles (first_allocated 0 s.core.allocator.allocation_map) s h
  run_command-Settles name cmd_vfs args history ticks s h ranked =
      show_tree-Settles (print_vfs_tree (tree_fuel s.core.vfs) s.core.vfs 0 0) s h
        (print_vfs_tree-Gives s.core.vfs ranked 0 0)
  run_command-Settles name cmd_ls args history ticks s h ranked =
      let path = resolve_relative_path s.cwd (or_default args s.cwd) in
      list_path-Settles path (resolve_path s.core.vfs path) s h
        (resolve_path-Returned s.core.vfs path (Reach-IsValid h.reached).tree)
  run_command-Settles name cmd_mkdir args history ticks s h ranked = (make_node-Settles args s h).0
  run_command-Settles name cmd_touch args history ticks s h ranked = (make_node-Settles args s h).1
  run_command-Settles name cmd_write args history ticks s h ranked = write_text-Settles args s h
  run_command-Settles name cmd_rm args history ticks s h ranked = remove-Settles args s h ranked
  run_command-Settles name cmd_cat args history ticks s h ranked =
      show_file-Settles cmd_cat (λ path bytes. contents cmd_cat path bytes 0) (first_arg args) s h
  run_command-Settles name cmd_pwd args history ticks s h ranked = reply-Settles _ s h
  run_command-Settles name cmd_cd args history ticks s h ranked =
      let target = or_default args root_path in
      let path = resolve_relative_path s.cwd target in
      change_directory-Settles target path (resolve_path s.core.vfs path) s h
        (resolve_relative_path-IsCanonical s.cwd target)
        (resolve_path-Returned s.core.vfs path (Reach-IsValid h.reached).tree)
  run_command-Settles name cmd_echo args history ticks s h ranked = reply-Settles _ s h
  run_command-Settles name cmd_cp args history ticks s h ranked = copy-Settles args s h
  run_command-Settles name cmd_mv args history ticks s h ranked = move-Settles args s h
  run_command-Settles name cmd_uname args history ticks s h ranked = reply-Settles _ s h
  run_command-Settles name cmd_uptime args history ticks s h ranked = reply-Settles _ s h
  run_command-Settles name cmd_free args history ticks s h ranked = reply-Settles _ s h
  run_command-Settles name cmd_whoami args history ticks s h ranked = reply-Settles _ s h
  run_command-Settles name cmd_hostname args history ticks s h ranked = reply-Settles _ s h
  run_command-Settles name cmd_history args history ticks s h ranked = reply-Settles _ s h
  run_command-Settles name cmd_head args history ticks s h ranked =
      show_file-Settles cmd_head
        (λ path bytes. contents cmd_head path bytes (parse_n_flag args 10).0)
        (parse_n_flag args 10).1 s h
  run_command-Settles name cmd_tail args history ticks s h ranked =
      show_file-Settles cmd_tail
        (λ path bytes. contents cmd_tail path bytes (parse_n_flag args 10).0)
        (parse_n_flag args 10).1 s h
  run_command-Settles name cmd_wc args history ticks s h ranked =
      show_file-Settles cmd_wc (λ path bytes. contents cmd_wc path bytes 0) (first_arg args) s h
  run_command-Settles name cmd_find args history ticks s h ranked = find-Settles args s h ranked
  run_command-Settles name cmd_clear args history ticks s h ranked = reply-Settles _ s h
  run_command-Settles name cmd_unknown args history ticks s h ranked = reply-Settles _ s h

-- Whatever the user types, in any state of the kernel that its operations can reach and whose tree of
-- directories has no cycle: the command ends within its fuel, it does not panic, the kernel is in a
-- state that its operations can reach, and the working directory is a path in its one spelling. What
-- a program does that `run` or `usermode` starts is not part of this.
pub handle_command-Settles :
    {debug : ℕ → String} (parts history : List Text) (ticks : ℕ) (s : Shell)
    → IsSettled debug s
    → IsRanked s.core.vfs
    → Answers (Settles debug) (handle_command parts history ticks s)
unfolding handle_command
handle_command-Settles [] history ticks s h ranked = reply-Settles _ s h
handle_command-Settles (cmd ∷ args) history ticks s h ranked =
    run_command-Settles cmd (command_of cmd) args history ticks s h ranked
