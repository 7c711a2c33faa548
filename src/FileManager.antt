-- ===== src/FileManager.antt =====
-- usermode-desktop/src/file_manager/state.rs: the state of the file manager and its keys. The calls of
-- the kernel that a confirmed dialog makes are left out. `is_utf8` says of which bytes the core
-- library's `from_utf8` makes a text.
pub mod Bytes
pub mod Fit
pub mod Paths
use package.rustix_os.Prelude.{
  ℕ, zero, suc, ◌+◌, ◌-◌, ◌*◌, ◌/◌, ◌%◌, min, Bool, true, false, not, ◌&&◌, ◌||◌, ◌==◌, ltb, leb,
  if◌then◌else◌, Option, none, some, List, [], ◌∷◌, length, set, take, replicate,
}
use package.rustix_os.Prelude.Int.{ℤ, pos, negsuc, ◌+ℤ◌, ◌-ℤ◌, ltb_ℤ}
use package.rustix_os.Vfs.Inode.{Text, text_eq}
use package.rustix_os.Vfs.Path.{slash, root_path, is_empty, trim_end, split_last}
use package.rustix_os.Vfs.Copy.{child_path}

pub record FileManager : Type 0 where
  pub path_buf : List ℕ
  pub path_len : ℕ
  pub selected_index : ℤ
  pub hovered_index : ℤ
  pub modal_mode : ℕ
  pub modal_input_buf : List ℕ
  pub modal_input_len : ℕ
  pub view_mode : ℕ
  pub scroll_offset : ℤ
  pub total_items : ℕ
  pub is_dragging_scrollbar : ℕ

unfoldable pub new : FileManager
new = record {
  path_buf = slash ∷ replicate 255 0;
  path_len = 1;
  selected_index = negsuc 0;
  hovered_index = negsuc 0;
  modal_mode = 0;
  modal_input_buf = replicate 64 0;
  modal_input_len = 0;
  view_mode = 0;
  scroll_offset = pos 0;
  total_items = 0;
  is_dragging_scrollbar = 0;
}

-- The loop that stores bytes from the index `i` on.
unfoldable pub store_bytes : ℕ → List ℕ → List ℕ → List ℕ
store_bytes i [] buf = buf
store_bytes i (b ∷ bytes) buf = store_bytes (i + 1) bytes (set buf i b)

unfoldable pub set_path : Text → FileManager → FileManager
unfolding store_bytes
set_path new_path fm = record fm {
  path_buf = store_bytes 0 (take 256 new_path) fm.path_buf;
  path_len = min (length new_path) 256;
  selected_index = negsuc 0;
  hovered_index = negsuc 0;
  scroll_offset = pos 0;
}

abbrev pub max_ℤ : ℤ → ℤ → ℤ
max_ℤ a b = if ltb_ℤ a b then b else a

abbrev pub min_ℤ : ℤ → ℤ → ℤ
min_ℤ a b = if ltb_ℤ b a then b else a

abbrev pub max : ℕ → ℕ → ℕ
max a b = if ltb a b then b else a

unfoldable pub toggle_view_mode : FileManager → FileManager
toggle_view_mode fm = record fm {
  view_mode = if fm.view_mode == 0 then 1 else 0;
  scroll_offset = pos 0;
}

-- In pixels, which are not negative: a difference below 0 counts as 0, as `.max(0)` has it.
unfoldable pub calculate_max_scroll : FileManager → ℕ → ℕ → ℕ
calculate_max_scroll fm container_h list_width =
    let cols = max ((list_width - 24) / 74) 1 in
    let max_height =
      if fm.view_mode == 0
      then fm.total_items * 28
      else ((fm.total_items + cols - 1) / cols) * 70 in
    max_height - container_h

unfoldable pub scroll_down : ℤ → ℕ → ℕ → FileManager → FileManager
unfolding calculate_max_scroll ◌+ℤ◌
scroll_down delta container_h list_width fm =
    let max_scroll = pos (calculate_max_scroll fm container_h list_width) in
    record fm { scroll_offset = max_ℤ (min_ℤ (fm.scroll_offset +ℤ delta) max_scroll) (pos 0) }

unfoldable pub scroll_up : ℤ → FileManager → FileManager
unfolding ◌-ℤ◌
scroll_up delta fm = record fm { scroll_offset = max_ℤ (fm.scroll_offset -ℤ delta) (pos 0) }

abbrev pub open_modal : ℕ → FileManager → FileManager
open_modal mode fm = record fm { modal_input_len = 0; modal_mode = mode }

abbrev pub close_modal : FileManager → FileManager
close_modal fm = record fm { modal_mode = 0; modal_input_len = 0 }

abbrev pub push_modal_char : ℕ → FileManager → FileManager
push_modal_char c fm =
    if ltb fm.modal_input_len 64 && leb c 255
    then record fm {
      modal_input_buf = set fm.modal_input_buf fm.modal_input_len c;
      modal_input_len = fm.modal_input_len + 1;
    }
    else fm

abbrev pub pop_modal_char : FileManager → FileManager
pop_modal_char fm =
    if ltb 0 fm.modal_input_len then record fm { modal_input_len = fm.modal_input_len - 1 } else fm

-- What stays in the state of the three actions.
abbrev pub execute_modal_action : FileManager → FileManager
execute_modal_action fm = close_modal (
    if fm.modal_mode == 3 && not (ltb_ℤ fm.selected_index (pos 0))
    then record fm { selected_index = negsuc 0 }
    else fm)

-- `is_ascii_graphic()`, or a space; the other three characters of the test are graphic.
abbrev pub is_name_char : ℕ → Bool
is_name_char c = leb 0x21 c && leb c 0x7E || c == b' '

abbrev pub modal_key : ℕ → FileManager → FileManager
modal_key key fm =
    if key == 0x1001 || key == 13 || key == 10
    then execute_modal_action fm
    else (if key == 0x1000 || key == 8
        then pop_modal_char fm
        else (if key == 0x101B || key == 27
            then close_modal fm
            else (if ltb key 0x1000 && is_name_char (key % 256)
                then push_modal_char (key % 256) fm
                else fm)))

abbrev pub view_key : ℕ → FileManager → FileManager
view_key key fm =
    if key == 0x1003 || key == 0x50
    then scroll_down (pos 28) 200 200 fm
    else (if key == 0x1002 || key == 0x48
        then scroll_up (pos 28) fm
        else (if key == 0x1005
            then scroll_down (pos 140) 200 200 fm
            else (if key == 0x1004 then scroll_up (pos 140) fm else fm)))

unfoldable pub handle_file_manager_key : ℕ → FileManager → FileManager
unfolding scroll_down scroll_up
handle_file_manager_key key fm = if ltb 0 fm.modal_mode then modal_key key fm else view_key key fm

module _ (is_utf8 : List ℕ → Bool) where
  abbrev pub or_text : List ℕ → Text → Text
  or_text bytes other = if is_utf8 bytes then bytes else other

  -- With a buffer of 256 bytes.
  unfoldable pub get_path : FileManager → Text
  get_path fm = or_text (take (min fm.path_len 256) fm.path_buf) root_path

  -- The writer takes the first 256 bytes.
  unfoldable pub push_dir : Text → FileManager → FileManager
  unfolding trim_end child_path set_path get_path
  push_dir dir_name fm =
      set_path (or_text (take 256 (child_path (get_path fm) (trim_end dir_name))) []) fm

  abbrev pub set_parent : Option (Text × Text) → FileManager → FileManager
  set_parent none fm = set_path root_path fm
  set_parent (some (parent, name)) fm = set_path (if is_empty parent then root_path else parent) fm

  unfoldable pub pop_dir : FileManager → FileManager
  unfolding text_eq split_last set_path get_path
  pop_dir fm =
      let current = get_path fm in
      if text_eq current root_path then fm else set_parent (split_last current) fm
