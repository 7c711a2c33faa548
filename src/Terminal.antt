-- ===== src/Terminal.antt =====
-- usermode-desktop/src/console.rs: the text grid of the console and its cursor. `TERM_BUFFER` is a list
-- of rows of code points. The commands of the console and its drawing are left out.
pub mod Grid
use package.rustix_os.Prelude.{
  ℕ, ◌+◌, ◌-◌, Bool, ltb, leb, ◌==◌, ◌&&◌, if◌then◌else◌, Option, none, some, List, [], ◌∷◌, ◌++◌,
  length, get_elem?, set, take, drop, replicate,
}
use package.rustix_os.Outcome.{Outcome, ok, err, panic, Error, ◌>>=◌}

abbrev pub term_max_rows : ℕ
term_max_rows = 14

abbrev pub term_max_cols : ℕ
term_max_cols = 56

pub record Terminal : Type 0 where
  pub buffer : List (List ℕ)
  pub row : ℕ
  pub col : ℕ

abbrev pub blank_row : List ℕ
blank_row = replicate term_max_cols b' '

unfoldable pub new : Terminal
new = record { buffer = replicate term_max_rows blank_row; row = 0; col = 0 }

-- On the last row the others move up by one.
unfoldable pub term_newline : Terminal → Terminal
term_newline t =
    if ltb t.row (term_max_rows - 1)
    then record t { row = t.row + 1; col = 0 }
    else record t { buffer = drop 1 t.buffer ++ blank_row ∷ []; col = 0 }

-- `TERM_BUFFER[row][col] = c`.
abbrev pub write_in : ℕ → ℕ → Terminal → Option (List ℕ) → Outcome Terminal Error
write_in col c t none = panic
write_in col c t (some cells) =
    if ltb col (length cells)
    then ok (record t { buffer = set t.buffer t.row (set cells col c) })
    else panic

abbrev pub write_cell : ℕ → ℕ → Terminal → Outcome Terminal Error
write_cell col c t = write_in col c t (get_elem? t.buffer t.row)

-- Behind the last "> " of the cells, the first of which has the index `i`.
abbrev pub last_prompt : ℕ → ℕ → List ℕ → ℕ
last_prompt i end [] = end
last_prompt i end (c ∷ []) = end
last_prompt i end (c ∷ d ∷ cells) =
    last_prompt (i + 1) (if c == b'>' && d == b' ' then i + 2 else end) (d ∷ cells)

abbrev pub prompt_end : ℕ → Option (List ℕ) → Outcome ℕ Error
prompt_end col none = if leb col 1 then ok 11 else panic
prompt_end col (some cells) = ok (last_prompt 0 11 (take col cells))

abbrev pub erase_to : Terminal → ℕ → Outcome Terminal Error
erase_to t end =
    if ltb end t.col then write_cell (t.col - 1) b' ' (record t { col = t.col - 1 }) else ok t

abbrev pub erase_char : Terminal → Outcome Terminal Error
erase_char t = prompt_end t.col (get_elem? t.buffer t.row) >>= erase_to t

-- What follows the write of a character.
abbrev pub wrap_row : Terminal → Terminal
wrap_row t = if leb term_max_cols t.col then term_newline t else t

abbrev pub advance : Terminal → Outcome Terminal Error
advance t = ok (wrap_row (record t { col = t.col + 1 }))

abbrev pub put_char : ℕ → Terminal → Outcome Terminal Error
put_char c t = if ltb t.col term_max_cols then write_cell t.col c t >>= advance else ok (wrap_row t)

unfoldable pub term_print_char : ℕ → Terminal → Outcome Terminal Error
unfolding term_newline
term_print_char c t =
    if c == 0x0A then ok (term_newline t) else (if c == 0x08 then erase_char t else put_char c t)

unfoldable pub term_print_str : List ℕ → Terminal → Outcome Terminal Error
unfolding term_print_char
term_print_str [] t = ok t
term_print_str (c ∷ s) t = term_print_char c t >>= term_print_str s
