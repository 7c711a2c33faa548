-- ===== src/CoreTests.antt =====
-- The kernel as a whole: its start, and the theorems at concrete inputs.
use rustix_os.Prelude.{ℕ, ◌≡◌, ◌≢◌, ◌⊎◌, refl, true, [], ◌∷◌, length}
use rustix_os.Outcome.{Outcome, ok, err, panic, Error, Yields}
use rustix_os.Ecc.{encode}
use rustix_os.Frame
use rustix_os.Frame.{write_byte, flip_bit}
use rustix_os.Allocator
use rustix_os.Allocator.{find_free, allocate_page, on_frame, new_from, inject_bit_flip}
use rustix_os.Dispatcher
use rustix_os.Dispatcher.{new_process, log_event, spawn_process}
use rustix_os.Vfs.Inode
use rustix_os.Vfs.Inode.{text_eq, new_directory, new_file}
use rustix_os.Vfs.Path.{root_path, resolve_path, split_slash, drop_empty, walk, enter, find_entry}
use rustix_os.Vfs.Tree.{push_entry, update_inode, create_node, mkdir, create_file}
use rustix_os.Vfs.Write.{
  free_blocks, page_byte, fill_page, write_blocks, num_blocks, write_inode, write_file,
}
use Prim.Native.String.{String}
use rustix_os.Prelude.Codes.{codes}
use rustix_os.Input.Keyboard
use rustix_os.Vfs.Ranked.{Answers, all_above, all_above-IsRanked}
use rustix_os.Shell.Handle.{Shell}
use rustix_os.Shell.Path.{normalize_path, resolve_relative_path, collapse, take_segment, join}
use rustix_os.Shell.Path.Canonical.{of_root, resolve_relative_path_root}
use rustix_os.Shell.Run.{handle_command}
use rustix_os.Shell.Run.Reach.{IsSettled, Settles}
use rustix_os.Shell.Run.Settled.{handle_command-Settles}
use rustix_os.Core.{SystemCore, tick, inject_memory_flip}
use rustix_os.Core.Valid.{IsValid, Ticked}
use rustix_os.Core.Reach.{Reach, booted, next, flipped, Served, Reach-Served, Reach-Ticked}
use rustix_os.Core.Boot.Valid.{bootstrap-Yields}
use rustix_os.Core.Boot.{spawn_services, make_directories, install, install_files, bootstrap}

-- A `Debug` that shows nothing of the number.
show : ℕ → String
show n = "n"

inode_count : Outcome SystemCore Error → ℕ
inode_count (ok core) = length core.vfs.inodes
inode_count (err e) = 0
inode_count panic = 0

-- The root, three directories and four files.
bootstrap_inodes : inode_count bootstrap ≡ 8
unfolding inode_count bootstrap spawn_services make_directories install_files install mkdir
    create_file create_node new_directory new_file push_entry update_inode write_file write_inode
    free_blocks write_blocks fill_page page_byte num_blocks on_frame write_byte encode find_free
    allocate_page Allocator.new new_from Frame.new resolve_path split_slash drop_empty walk enter
    find_entry text_eq Inode.new Dispatcher.new new_process log_event spawn_process
bootstrap_inodes = refl

abbrev unbooted : SystemCore
unbooted = record {
  allocator = Allocator.new;
  dispatcher = Dispatcher.new;
  vfs = Inode.new;
  scrubber_sweeps = 0;
  ecc_single_bit_corrections = 0;
  pages_quarantined = 0;
  pages_relocated = 0;
  critical_tmr_ops = 0;
  tmr_voter_corrections = 0;
}

abbrev core_of : Outcome SystemCore Error → SystemCore
core_of (ok core) = core
core_of (err e) = unbooted
core_of panic = unbooted

abbrev booted_core : SystemCore
booted_core = core_of bootstrap

core_of-ok :
    (P : SystemCore → Type 0) (r : Outcome SystemCore Error) → Yields P r → r ≡ ok (core_of r)
core_of-ok P (ok core) h = refl
core_of-ok P (err e) h = absurd h
core_of-ok P panic h = absurd h

bootstrap_ok : bootstrap ≡ ok booted_core
bootstrap_ok = core_of-ok IsValid bootstrap bootstrap-Yields

-- A bit flips in the first frame after the start.
flipped-Reach : Reach show (inject_memory_flip booted_core 0 4 2).1
flipped-Reach = next (booted booted_core bootstrap_ok) (flipped 0 4 2)

-- No entry of the table after the start points back.
booted_above : all_above 0 booted_core.vfs.inodes ≡ true
unfolding bootstrap spawn_services make_directories install_files install mkdir create_file
    create_node new_directory new_file push_entry update_inode write_file write_inode free_blocks
    write_blocks fill_page page_byte num_blocks on_frame write_byte encode find_free allocate_page
    Allocator.new new_from Frame.new resolve_path split_slash drop_empty walk enter find_entry
    text_eq Inode.new Dispatcher.new new_process log_event spawn_process
booted_above = refl

flipped_above : all_above 0 (inject_memory_flip booted_core 0 4 2).1.vfs.inodes ≡ true
unfolding bootstrap spawn_services make_directories install_files install mkdir create_file
    create_node new_directory new_file push_entry update_inode write_file write_inode free_blocks
    write_blocks fill_page page_byte num_blocks on_frame write_byte encode find_free allocate_page
    Allocator.new new_from Frame.new resolve_path split_slash drop_empty walk enter find_entry
    text_eq Inode.new Dispatcher.new new_process log_event spawn_process inject_memory_flip
    inject_bit_flip flip_bit
flipped_above = refl

Reach-Served_example : Served (inject_memory_flip booted_core 0 4 2).1
Reach-Served_example =
    Reach-Served flipped-Reach
      (all_above-IsRanked (inject_memory_flip booted_core 0 4 2).1.vfs flipped_above)

Reach-Ticked_example :
    Yields
      (Ticked (inject_memory_flip booted_core 0 4 2).1)
      (tick show (inject_memory_flip booted_core 0 4 2).1)
Reach-Ticked_example = Reach-Ticked flipped-Reach

-- The shell after the start, in the root.
abbrev booted_shell : Shell
booted_shell = record { core = booted_core; cwd = root_path; keyboard = Keyboard.new }

booted_shell-IsSettled : IsSettled show booted_shell
booted_shell-IsSettled = record { reached = booted booted_core bootstrap_ok; canonical = of_root }

handle_command-Settles_example :
    Answers
      (Settles show)
      (handle_command (codes "mkdir" ∷ codes "data/logs" ∷ []) [] 0 booted_shell)
handle_command-Settles_example =
    handle_command-Settles (codes "mkdir" ∷ codes "data/logs" ∷ []) [] 0 booted_shell
      booted_shell-IsSettled (all_above-IsRanked booted_core.vfs booted_above)

resolve_relative_path_root_example :
    (resolve_relative_path (codes "/data") (codes "..//..") ≡ root_path)
    ⊎ (drop_empty (split_slash (resolve_relative_path (codes "/data") (codes "..//.."))) ≢ [])
resolve_relative_path_root_example = resolve_relative_path_root (codes "/data") (codes "..//..")

normalized : normalize_path (codes "/a/../b//./c") ≡ codes "/b/c"
unfolding normalize_path collapse take_segment join split_slash text_eq
normalized = refl
