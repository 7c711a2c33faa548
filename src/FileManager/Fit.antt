-- ===== src/FileManager/Fit.antt =====
-- What holds of the file manager's state under all keys, and what the arrow keys do to it.
use package.rustix_os.Prelude.{
  ℕ, ◌%◌, ◌≤◌, ◌≡◌, refl, arith, false, not, ◌&&◌, ◌||◌, ◌==◌, ltb, leb, if◌then◌else◌, if_lem,
  Bool-cases, inl, inr, length, length-set,
}
use package.rustix_os.Prelude.Int.{ℤ, pos, negsuc, ◌+ℤ◌, ◌-ℤ◌, ◌≤ℤ◌, ltb_ℤ}
use package.rustix_os.Input.Keyboard.{page_up, page_down, arrow_up, arrow_down}
use package.rustix_os.Input.Interrupt.{key_value}
use package.rustix_os.FileManager.{
  FileManager, new, max_ℤ, min_ℤ, calculate_max_scroll, scroll_down, scroll_up, close_modal,
  push_modal_char, pop_modal_char, execute_modal_action, is_name_char, modal_key, view_key,
  handle_file_manager_key,
}

-- The lengths fit the buffers, and the view is not scrolled above its top.
pub record IsFit (fm : FileManager) : Type 0 where
  pub path_full : length fm.path_buf ≡ 256
  pub path_fits : fm.path_len ≤ 256
  pub input_full : length fm.modal_input_buf ≡ 64
  pub input_fits : fm.modal_input_len ≤ 64
  pub scrolled : pos 0 ≤ℤ fm.scroll_offset

max_pos : (v : ℤ) → pos 0 ≤ℤ max_ℤ v (pos 0)
max_pos v = ground arith

with_scroll-IsFit :
    (fm : FileManager) (v : ℤ) → IsFit fm → IsFit (record fm { scroll_offset = max_ℤ v (pos 0) })
with_scroll-IsFit fm v h = record {
  path_full = h.path_full;
  path_fits = h.path_fits;
  input_full = h.input_full;
  input_fits = h.input_fits;
  scrolled = max_pos v;
}

close_modal-IsFit : (fm : FileManager) → IsFit fm → IsFit (close_modal fm)
close_modal-IsFit fm h = record {
  path_full = h.path_full;
  path_fits = h.path_fits;
  input_full = h.input_full;
  input_fits = omega arith;
  scrolled = h.scrolled;
}

push_modal_char-IsFit : (c : ℕ) (fm : FileManager) → IsFit fm → IsFit (push_modal_char c fm)
push_modal_char-IsFit c fm h = elim (Bool-cases (ltb fm.modal_input_len 64)) [
  | inl e ↦ rw e (
      if_lem IsFit (leb c 255)
        (record {
          path_full = h.path_full;
          path_fits = h.path_fits;
          input_full =
              omega (arith, length-set fm.modal_input_buf fm.modal_input_len c, h.input_full);
          input_fits = ground (arith, e);
          scrolled = h.scrolled;
        })
        h)
  | inr e ↦ rw e h
]

pop_modal_char-IsFit : (fm : FileManager) → IsFit fm → IsFit (pop_modal_char fm)
pop_modal_char-IsFit fm h =
    if_lem IsFit (ltb 0 fm.modal_input_len)
      (record {
        path_full = h.path_full;
        path_fits = h.path_fits;
        input_full = h.input_full;
        input_fits = omega (arith, h.input_fits);
        scrolled = h.scrolled;
      })
      h

execute_modal_action-IsFit : (fm : FileManager) → IsFit fm → IsFit (execute_modal_action fm)
execute_modal_action-IsFit fm h =
    close_modal-IsFit
      (if fm.modal_mode == 3 && not (ltb_ℤ fm.selected_index (pos 0))
        then record fm { selected_index = negsuc 0 }
        else fm)
      (if_lem IsFit (fm.modal_mode == 3 && not (ltb_ℤ fm.selected_index (pos 0)))
        (record {
          path_full = h.path_full;
          path_fits = h.path_fits;
          input_full = h.input_full;
          input_fits = h.input_fits;
          scrolled = h.scrolled;
        })
        h)

modal_key-IsFit : (key : ℕ) (fm : FileManager) → IsFit fm → IsFit (modal_key key fm)
modal_key-IsFit key fm h =
    if_lem IsFit (key == 0x1001 || key == 13 || key == 10) (execute_modal_action-IsFit fm h) (
      if_lem IsFit (key == 0x1000 || key == 8) (pop_modal_char-IsFit fm h) (
        if_lem IsFit (key == 0x101B || key == 27) (close_modal-IsFit fm h) (
          if_lem IsFit (ltb key 0x1000 && is_name_char (key % 256))
            (push_modal_char-IsFit (key % 256) fm h) h)))

scroll_down-IsFit :
    (delta : ℤ) (container_h list_width : ℕ) (fm : FileManager)
    → IsFit fm
    → IsFit (scroll_down delta container_h list_width fm)
unfolding scroll_down
scroll_down-IsFit delta container_h list_width fm h =
    with_scroll-IsFit fm
      (min_ℤ (fm.scroll_offset +ℤ delta) (pos (calculate_max_scroll fm container_h list_width))) h

scroll_up-IsFit : (delta : ℤ) (fm : FileManager) → IsFit fm → IsFit (scroll_up delta fm)
unfolding scroll_up
scroll_up-IsFit delta fm h = with_scroll-IsFit fm (fm.scroll_offset -ℤ delta) h

view_key-IsFit : (key : ℕ) (fm : FileManager) → IsFit fm → IsFit (view_key key fm)
view_key-IsFit key fm h =
    if_lem IsFit (key == 0x1003 || key == 0x50) (scroll_down-IsFit (pos 28) 200 200 fm h) (
      if_lem IsFit (key == 0x1002 || key == 0x48) (scroll_up-IsFit (pos 28) fm h) (
        if_lem IsFit (key == 0x1005) (scroll_down-IsFit (pos 140) 200 200 fm h)
          (if_lem IsFit (key == 0x1004) (scroll_up-IsFit (pos 140) fm h) h)))

-- Whatever key is pressed, with a dialog or without: the typed text fits its buffer of 64 bytes, the
-- path its 256, and the view is not scrolled above its top.
pub handle_file_manager_key-IsFit :
    (key : ℕ) (fm : FileManager) → IsFit fm → IsFit (handle_file_manager_key key fm)
unfolding handle_file_manager_key
handle_file_manager_key-IsFit key fm h =
    if_lem IsFit (ltb 0 fm.modal_mode) (modal_key-IsFit key fm h) (view_key-IsFit key fm h)

-- Without a dialog the arrow and page keys, under the values that the keyboard driver gives them,
-- leave the file manager as it is: it does not scroll.
pub arrow_keys_lem :
    (fm : FileManager)
    → fm.modal_mode ≡ 0
    → (handle_file_manager_key (key_value arrow_down) fm ≡ fm)
      × (handle_file_manager_key (key_value arrow_up) fm ≡ fm)
      × (handle_file_manager_key (key_value page_down) fm ≡ fm)
      × (handle_file_manager_key (key_value page_up) fm ≡ fm)
unfolding handle_file_manager_key
arrow_keys_lem fm h =
    let e : ltb 0 fm.modal_mode ≡ false = ground (arith, h) in rw e (refl, refl, refl, refl)

pub new-IsFit : IsFit new
unfolding new
new-IsFit = record {
  path_full = refl;
  path_fits = omega arith;
  input_full = refl;
  input_fits = omega arith;
  scrolled = omega arith;
}
