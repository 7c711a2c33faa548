-- ===== src/Shell/Run.antt =====
-- The `match` of `handle_command` in kernel-x86/src/shell.rs.
pub mod Reach
pub mod Settled
use package.rustix_os.Prelude.{ℕ, ◌-◌, ◌/◌, Option, none, some, List, [], ◌∷◌, length}
use package.rustix_os.Prelude.Codes.{codes}
use package.rustix_os.Vfs.Inode.{Text}
use package.rustix_os.Vfs.Path.{root_path, resolve_path}
use package.rustix_os.Vfs.Tree.{mkdir, create_file}
use package.rustix_os.Shell.Args.{parse_n_flag, first_arg, or_default}
use package.rustix_os.Shell.Path.{resolve_relative_path}
use package.rustix_os.Shell.Find.{print_vfs_tree, tree_fuel}
use package.rustix_os.Shell.Command.{
  Command, cmd_help, cmd_loadkeys, cmd_status, cmd_tasks, cmd_usermode, cmd_run, cmd_inject_flip,
  cmd_vfs, cmd_ls, cmd_mkdir, cmd_touch, cmd_write, cmd_rm, cmd_cat, cmd_pwd, cmd_cd, cmd_echo,
  cmd_cp, cmd_mv, cmd_uname, cmd_uptime, cmd_free, cmd_whoami, cmd_hostname, cmd_history, cmd_head,
  cmd_tail, cmd_wc, cmd_find, cmd_clear, cmd_unknown, Reply, silent, fixed_text, usage,
  unknown_command, layout_switched, unknown_layout, status_report, task_list, page_report,
  uptime_report, launched, flipped_frame, no_target, tree_lines, listing, file_size, done, wrote,
  failed, contents, working_directory, not_a_directory, no_such_directory, echoed, command_history,
  found_paths, command_of,
}
use package.rustix_os.Shell.Handle.{
  Shell, Served, reply, allocated, first_allocated, loadkeys, show_file, inject_flip, show_tree,
  list_path, change_directory, make_node, write_text, remove, copy, move, find,
}

-- `history` and `ticks` are the commands typed before and the ticks since the start.
unfoldable pub run_command : Text → Command → List Text → List Text → ℕ → Shell → Served
unfolding mkdir create_file resolve_path resolve_relative_path parse_n_flag print_vfs_tree
run_command name cmd_help args history ticks s = reply (fixed_text cmd_help) s
run_command name cmd_loadkeys args history ticks s = loadkeys args s
run_command name cmd_status args history ticks s =
    reply (status_report s.core (allocated s.core.allocator.allocation_map)) s
run_command name cmd_tasks args history ticks s = reply (task_list s.core.dispatcher.processes) s
run_command name cmd_usermode args history ticks s = reply (fixed_text cmd_usermode) s
run_command name cmd_run args history ticks s = show_file cmd_run launched (first_arg args) s
run_command name cmd_inject_flip args history ticks s =
    inject_flip (first_allocated 0 s.core.allocator.allocation_map) s
run_command name cmd_vfs args history ticks s =
    show_tree (print_vfs_tree (tree_fuel s.core.vfs) s.core.vfs 0 0) s
run_command name cmd_ls args history ticks s =
    let path = resolve_relative_path s.cwd (or_default args s.cwd) in
    list_path path (resolve_path s.core.vfs path) s
run_command name cmd_mkdir args history ticks s = make_node cmd_mkdir mkdir args s
run_command name cmd_touch args history ticks s = make_node cmd_touch create_file args s
run_command name cmd_write args history ticks s = write_text args s
run_command name cmd_rm args history ticks s = remove args s
run_command name cmd_cat args history ticks s =
    show_file cmd_cat (λ path bytes. contents cmd_cat path bytes 0) (first_arg args) s
run_command name cmd_pwd args history ticks s = reply (working_directory s.cwd) s
run_command name cmd_cd args history ticks s =
    let target = or_default args root_path in
    let path = resolve_relative_path s.cwd target in
    change_directory target path (resolve_path s.core.vfs path) s
run_command name cmd_echo args history ticks s = reply (echoed args) s
run_command name cmd_cp args history ticks s = copy args s
run_command name cmd_mv args history ticks s = move args s
run_command name cmd_uname args history ticks s = reply (fixed_text cmd_uname) s
run_command name cmd_uptime args history ticks s = reply (uptime_report ticks (ticks / 50)) s
run_command name cmd_free args history ticks s =
    let total = length s.core.allocator.allocation_map in
    let used = allocated s.core.allocator.allocation_map in
    reply (page_report total used (total - used)) s
run_command name cmd_whoami args history ticks s = reply (fixed_text cmd_whoami) s
run_command name cmd_hostname args history ticks s = reply (fixed_text cmd_hostname) s
run_command name cmd_history args history ticks s = reply (command_history history) s
run_command name cmd_head args history ticks s =
    let flag = parse_n_flag args 10 in
    show_file cmd_head (λ path bytes. contents cmd_head path bytes flag.0) flag.1 s
run_command name cmd_tail args history ticks s =
    let flag = parse_n_flag args 10 in
    show_file cmd_tail (λ path bytes. contents cmd_tail path bytes flag.0) flag.1 s
run_command name cmd_wc args history ticks s =
    show_file cmd_wc (λ path bytes. contents cmd_wc path bytes 0) (first_arg args) s
run_command name cmd_find args history ticks s = find args s
run_command name cmd_clear args history ticks s = reply (fixed_text cmd_clear) s
run_command name cmd_unknown args history ticks s = reply (unknown_command name) s

unfoldable pub handle_command : List Text → List Text → ℕ → Shell → Served
unfolding command_of run_command
handle_command [] history ticks s = reply silent s
handle_command (cmd ∷ args) history ticks s = run_command cmd (command_of cmd) args history ticks s
