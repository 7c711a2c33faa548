-- ===== src/DesktopTests.antt =====
-- The file manager and the console: the theorems at concrete inputs.
use rustix_os.Prelude.{ℕ, ◌≡◌, refl, arith, Bool, true, List, [], ◌∷◌}
use rustix_os.Prelude.Codes.{codes}
use rustix_os.Vfs.Inode.{text_eq}
use rustix_os.Vfs.Copy.{child_path}
use rustix_os.Input.Keyboard.{page_up, page_down, arrow_up, arrow_down}
use rustix_os.Input.Interrupt.{key_value}
use rustix_os.Outcome.{Yields}
use rustix_os.Terminal
use rustix_os.Terminal.{term_print_str}
use rustix_os.Terminal.Grid.{IsGrid, new-IsGrid, term_print_str-Yields}
use rustix_os.FileManager.{new, get_path, push_dir, pop_dir, handle_file_manager_key}
use rustix_os.FileManager.Fit.{IsFit, new-IsFit, handle_file_manager_key-IsFit, arrow_keys_lem}
use rustix_os.FileManager.Paths.{pop_dir-push_dir}

-- All bytes that the tests use are ASCII.
abbrev ascii : List ℕ → Bool
ascii bytes = true

handle_file_manager_key-IsFit_example : IsFit (handle_file_manager_key 0x61 new)
handle_file_manager_key-IsFit_example = handle_file_manager_key-IsFit 0x61 new new-IsFit

at_root : new.modal_mode ≡ 0
unfolding new
at_root = refl

arrow_keys_lem_example :
    (handle_file_manager_key (key_value arrow_down) new ≡ new)
    × (handle_file_manager_key (key_value arrow_up) new ≡ new)
    × (handle_file_manager_key (key_value page_down) new ≡ new)
    × (handle_file_manager_key (key_value page_up) new ≡ new)
arrow_keys_lem_example = arrow_keys_lem new at_root

new_path : get_path ascii new ≡ codes "/"
unfolding new get_path
new_path = refl

data_child : child_path (codes "/") (codes "data") ≡ codes "/data"
unfolding child_path text_eq
data_child = refl

pop_dir-push_dir_example :
    get_path ascii (pop_dir ascii (push_dir ascii (codes "data") new)) ≡ get_path ascii new
pop_dir-push_dir_example =
    pop_dir-push_dir ascii (codes "data") new new-IsFit.path_full
      (omega arith, (omega arith, (omega arith, (omega arith, tt)))) refl (rw new_path refl)
      (rw (new_path, data_child) (omega arith)) refl refl

-- Two characters, a backspace and a line feed.
term_print_str-Yields_example :
    Yields IsGrid (term_print_str (b'l' ∷ b's' ∷ 8 ∷ 10 ∷ []) Terminal.new)
term_print_str-Yields_example =
    term_print_str-Yields (b'l' ∷ b's' ∷ 8 ∷ 10 ∷ []) Terminal.new new-IsGrid
