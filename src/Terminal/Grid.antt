-- ===== src/Terminal/Grid.antt =====
-- Whatever is printed, the cursor stays on the grid.
use package.rustix_os.Prelude.{
  ℕ, zero, suc, ◌+◌, ◌-◌, ◌<◌, ◌≡◌, refl, arith, ltb, leb, ◌==◌, if_lem, Bool-cases, true, inl, inr,
  some, List, [], ◌∷◌, ◌++◌, length, get_elem?, get_elem?-some, set, length-set, length-append,
  length-drop, drop, replicate, length-replicate, take,
}
use package.rustix_os.Outcome.{Yields, >>=-Yields, Yields-weaken}
use package.rustix_os.Terminal.{
  Terminal, blank_row, new, term_newline, write_cell, last_prompt, erase_char, advance, put_char,
  term_print_char, term_print_str,
}

abbrev pub AllWide : List (List ℕ) → Type 0
AllWide [] = Unit {0}
AllWide (r ∷ rs) = (length r ≡ 56) × AllWide rs

-- 14 rows of 56 cells, with the cursor on one of them.
pub record IsGrid (t : Terminal) : Type 0 where
  pub rows : length t.buffer ≡ 14
  pub wide : AllWide t.buffer
  pub row_below : t.row < 14
  pub col_below : t.col < 56

AllWide-get :
    (rs : List (List ℕ)) (i : ℕ) {r : List ℕ} → AllWide rs → get_elem? rs i ≡ some r → length r ≡ 56
AllWide-get [] i h e = absurd cc
AllWide-get (x ∷ rs) zero h e = ground (arith, h.0, e)
AllWide-get (x ∷ rs) (suc i) h e = AllWide-get rs i h.1 e

AllWide-set :
    (rs : List (List ℕ)) (i : ℕ) (r : List ℕ) → AllWide rs → length r ≡ 56 → AllWide (set rs i r)
AllWide-set [] i r h e = tt
AllWide-set (x ∷ rs) zero r h e = (e, h.1)
AllWide-set (x ∷ rs) (suc i) r h e = (h.0, AllWide-set rs i r h.1 e)

AllWide-blank : (rs : List (List ℕ)) → AllWide rs → AllWide (rs ++ blank_row ∷ [])
AllWide-blank [] h = (refl, tt)
AllWide-blank (x ∷ rs) h = (h.0, AllWide-blank rs h.1)

AllWide-drop : (rs : List (List ℕ)) → AllWide rs → AllWide (drop 1 rs)
AllWide-drop [] h = tt
AllWide-drop (x ∷ rs) h = h.1

term_newline-IsGrid :
    (t : Terminal) → length t.buffer ≡ 14 → AllWide t.buffer → t.row < 14 → IsGrid (term_newline t)
unfolding term_newline
term_newline-IsGrid t rows wide below = elim (Bool-cases (ltb t.row 13)) [
  | inl e ↦
      rw e (record {
        rows = rows;
        wide = wide;
        row_below = ground (arith, e);
        col_below = omega arith;
      })
  | inr e ↦ rw e (record {
    rows =
        omega
          (arith, length-append (drop 1 t.buffer) (blank_row ∷ []), length-drop 1 t.buffer, rows);
    wide = AllWide-blank (drop 1 t.buffer) (AllWide-drop t.buffer wide);
    row_below = below;
    col_below = omega arith;
  })
]

-- A write on the grid changes nothing but the cell.
record Wrote (t t' : Terminal) : Type 0 where
  grid : IsGrid t'
  same_row : t'.row ≡ t.row
  same_col : t'.col ≡ t.col

write_cell-Yields :
    (col c : ℕ) (t : Terminal) → IsGrid t → col < 56 → Yields (Wrote t) (write_cell col c t)
write_cell-Yields col c t h lt =
    let x = get_elem?-some t.buffer t.row (omega (arith, h.rows, h.row_below)) in
    let wide = AllWide-get t.buffer t.row h.wide x.1 in
    let e : ltb col (length x.0) ≡ true = ground (arith, wide) in
    rw (x.1, e)
      (record {
        grid = record {
          rows = omega (arith, length-set t.buffer t.row (set x.0 col c), h.rows);
          wide =
              AllWide-set t.buffer t.row (set x.0 col c) h.wide
                (omega (arith, length-set x.0 col c, wide));
          row_below = h.row_below;
          col_below = h.col_below;
        };
        same_row = refl;
        same_col = refl;
      })

erase_char-Yields : (t : Terminal) → IsGrid t → Yields IsGrid (erase_char t)
erase_char-Yields t h =
    let x = get_elem?-some t.buffer t.row (omega (arith, h.rows, h.row_below)) in
    let end = last_prompt 0 11 (take t.col x.0) in
    let back = record t { col = t.col - 1 } in
    let on_grid : IsGrid back = record {
      rows = h.rows;
      wide = h.wide;
      row_below = h.row_below;
      col_below = omega (arith, h.col_below);
    } in
    rw x.1 (
      if_lem (Yields IsGrid) (ltb end t.col)
        (Yields-weaken (Wrote back) IsGrid (write_cell (t.col - 1) b' ' back)
          (write_cell-Yields (t.col - 1) b' ' back on_grid (omega (arith, h.col_below)))
          (λ t' w. w.grid))
        h)

advance-IsGrid : (t : Terminal) → IsGrid t → Yields IsGrid (advance t)
advance-IsGrid t h = elim (Bool-cases (leb 56 (t.col + 1))) [
  | inl e ↦ rw e (term_newline-IsGrid (record t { col = t.col + 1 }) h.rows h.wide h.row_below)
  | inr e ↦ rw e (record {
    rows = h.rows;
    wide = h.wide;
    row_below = h.row_below;
    col_below = ground (arith, e);
  })
]

put_char-Yields : (c : ℕ) (t : Terminal) → IsGrid t → Yields IsGrid (put_char c t)
put_char-Yields c t h =
    let e : ltb t.col 56 ≡ true = ground (arith, h.col_below) in
    rw e (
      >>=-Yields (Wrote t) IsGrid (write_cell t.col c t) advance
        (write_cell-Yields t.col c t h h.col_below) (λ t' w. advance-IsGrid t' w.grid))

term_print_char-Yields : (c : ℕ) (t : Terminal) → IsGrid t → Yields IsGrid (term_print_char c t)
unfolding term_print_char
term_print_char-Yields c t h =
    if_lem (Yields IsGrid) (c == 0x0A) (term_newline-IsGrid t h.rows h.wide h.row_below)
      (if_lem (Yields IsGrid) (c == 0x08) (erase_char-Yields t h) (put_char-Yields c t h))

-- Whatever text is printed, with line feeds and backspaces anywhere in it, no index is out of range and
-- the cursor stands on a cell of the grid of 14 rows and 56 columns.
pub term_print_str-Yields :
    (s : List ℕ) (t : Terminal) → IsGrid t → Yields IsGrid (term_print_str s t)
unfolding term_print_str
term_print_str-Yields [] t h = h
term_print_str-Yields (c ∷ s) t h =
    >>=-Yields IsGrid IsGrid (term_print_char c t) (term_print_str s) (term_print_char-Yields c t h)
      (λ t' h'. term_print_str-Yields s t' h')

AllWide-replicate : (n : ℕ) → AllWide (replicate n blank_row)
AllWide-replicate zero = tt
AllWide-replicate (suc n) = (refl, AllWide-replicate n)

pub new-IsGrid : IsGrid new
unfolding new
new-IsGrid = record {
  rows = length-replicate 14 blank_row;
  wide = AllWide-replicate 14;
  row_below = omega arith;
  col_below = omega arith;
}
