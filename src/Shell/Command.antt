-- ===== src/Shell/Command.antt =====
-- The commands of `handle_command` in kernel-x86/src/shell.rs, and what each tells the user: a
-- constructor of `Reply` with the values that the printed text shows.
use package.rustix_os.Prelude.{ℕ, Bool, if◌then◌else◌, List, [], ◌∷◌}
use package.rustix_os.Prelude.Codes.{codes}
use package.rustix_os.Outcome.{Error}
use package.rustix_os.Dispatcher.{KernelProcess}
use package.rustix_os.Vfs.Inode.{Text, text_eq}
use package.rustix_os.Core.{SystemCore}
use package.rustix_os.Input.Keyboard.{KeyboardLayout}
use package.rustix_os.Shell.Find.{TreeLine}

pub data Command : Type 0 where
  cmd_help cmd_loadkeys cmd_status cmd_tasks cmd_usermode cmd_run cmd_inject_flip cmd_vfs cmd_ls :
      Command
  cmd_mkdir cmd_touch cmd_write cmd_rm cmd_cat cmd_pwd cmd_cd cmd_echo cmd_cp cmd_mv cmd_uname :
      Command
  cmd_uptime cmd_free cmd_whoami cmd_hostname cmd_history cmd_head cmd_tail cmd_wc cmd_find :
      Command
  cmd_clear cmd_unknown : Command

abbrev pub command_names : List (Text × Command)
command_names =
    (codes "help", cmd_help)
    ∷ (codes "loadkeys", cmd_loadkeys)
    ∷ (codes "status", cmd_status)
    ∷ (codes "tasks", cmd_tasks)
    ∷ (codes "usermode", cmd_usermode)
    ∷ (codes "run", cmd_run)
    ∷ (codes "inject-flip", cmd_inject_flip)
    ∷ (codes "vfs", cmd_vfs)
    ∷ (codes "ls", cmd_ls)
    ∷ (codes "mkdir", cmd_mkdir)
    ∷ (codes "touch", cmd_touch)
    ∷ (codes "write", cmd_write)
    ∷ (codes "rm", cmd_rm)
    ∷ (codes "cat", cmd_cat)
    ∷ (codes "pwd", cmd_pwd)
    ∷ (codes "cd", cmd_cd)
    ∷ (codes "echo", cmd_echo)
    ∷ (codes "cp", cmd_cp)
    ∷ (codes "mv", cmd_mv)
    ∷ (codes "uname", cmd_uname)
    ∷ (codes "uptime", cmd_uptime)
    ∷ (codes "free", cmd_free)
    ∷ (codes "whoami", cmd_whoami)
    ∷ (codes "hostname", cmd_hostname)
    ∷ (codes "history", cmd_history)
    ∷ (codes "head", cmd_head)
    ∷ (codes "tail", cmd_tail)
    ∷ (codes "wc", cmd_wc)
    ∷ (codes "find", cmd_find)
    ∷ (codes "clear", cmd_clear)
    ∷ []

abbrev pub find_command : Text → List (Text × Command) → Command
find_command cmd [] = cmd_unknown
find_command cmd ((name, c) ∷ names) = if text_eq cmd name then c else find_command cmd names

unfoldable pub command_of : Text → Command
unfolding text_eq
command_of cmd = find_command cmd command_names

pub data Reply : Type 0 where
  -- Nothing, a text that is always the same, and the usage of a command.
  silent : Reply
  fixed_text : Command → Reply
  usage : Command → Reply
  unknown_command : Text → Reply
  layout_switched : KeyboardLayout → Reply
  unknown_layout : Text → Reply
  -- The counters of the kernel, and the frames in use.
  status_report : SystemCore → ℕ → Reply
  task_list : List KernelProcess → Reply
  page_report : ℕ → ℕ → ℕ → Reply
  uptime_report : ℕ → ℕ → Reply
  -- The path and the bytes of a program that is started.
  launched : Text → List ℕ → Reply
  flipped_frame : ℕ → Reply
  no_target : Reply
  tree_lines : List TreeLine → Reply
  -- The entries of a directory, with whether each is a directory.
  listing : Text → List (Text × Bool) → Reply
  file_size : Text → ℕ → Reply
  done : Command → Text → Reply
  wrote : ℕ → Text → Reply
  failed : Command → Error → Reply
  -- The bytes of a file, and of how many lines the first or the last are printed.
  contents : Command → Text → List ℕ → ℕ → Reply
  working_directory : Text → Reply
  not_a_directory no_such_directory : Text → Reply
  echoed : List Text → Reply
  command_history : List Text → Reply
  found_paths : List Text → Reply
