-- ===== src/Windows.antt =====
-- `WindowManager` of kernel-x86/src/framebuffer/window.rs: which window is on top, active and dragged.
-- A window's title, its canvas and its previous position, which only drawing reads, are left out.
pub mod Arranged
pub mod Bounds
use package.rustix_os.Prelude.{
  ℕ, zero, suc, Bool, true, false, ◌&&◌, not, if◌then◌else◌, Option, none, some, List, [], ◌∷◌,
  ◌++◌, length, map,
}
use package.rustix_os.Prelude.Int.{ℤ, pos, negsuc, ◌+ℤ◌, ◌-ℤ◌, ltb_ℤ}
use package.rustix_os.Outcome.{Outcome, ok, panic, Error}

pub record Window : Type 0 where
  pub id : ℕ
  pub x : ℤ
  pub y : ℤ
  pub width : ℤ
  pub height : ℤ
  pub is_active : Bool

-- The windows stand from the lowest to the one on top.
pub record WindowManager : Type 0 where
  pub windows : List Window
  pub active_window_idx : Option ℕ
  pub is_dragging : Bool
  pub drag_offset_x : ℤ
  pub drag_offset_y : ℤ

abbrev window : ℕ → ℕ → ℕ → ℕ → ℕ → Bool → Window
window id x y width height is_active = record {
  id = id;
  x = pos x;
  y = pos y;
  width = pos width;
  height = pos height;
  is_active = is_active;
}

unfoldable pub new : WindowManager
new = record {
  windows =
      window 2 180 360 280 140 false
      ∷ window 0 80 100 320 160 false
      ∷ window 1 450 150 380 200 true
      ∷ [];
  active_window_idx = none;
  is_dragging = false;
  drag_offset_x = pos 0;
  drag_offset_y = pos 0;
}

-- `self.windows.remove(idx)`: the window and the others; `none` where the code panics.
abbrev pub put_back : Window → Option (Window × List Window) → Option (Window × List Window)
put_back w none = none
put_back w (some (taken, rest)) = some (taken, w ∷ rest)

unfoldable pub take_window : ℕ → List Window → Option (Window × List Window)
take_window idx [] = none
take_window zero (w ∷ ws) = some (w, ws)
take_window (suc idx) (w ∷ ws) = put_back w (take_window idx ws)

-- The highest window with `p`: the loop from the top down.
unfoldable pub topmost : (Window → Bool) → List Window → Option ℕ
topmost p [] = none
topmost p (w ∷ ws) = elim (topmost p ws) [
  | some i ↦ some (suc i)
  | none ↦ if p w then some 0 else none
]

abbrev pub between : ℤ → ℤ → ℤ → Bool
between low high v = not (ltb_ℤ v low) && ltb_ℤ v high

unfoldable pub in_title : ℤ → ℤ → Window → Bool
unfolding ◌+ℤ◌ ◌-ℤ◌
in_title mx my win = between win.x (win.x +ℤ win.width) mx && between (win.y -ℤ pos 24) win.y my

unfoldable pub in_body : ℤ → ℤ → Window → Bool
unfolding ◌+ℤ◌
in_body mx my win = between win.x (win.x +ℤ win.width) mx && between win.y (win.y +ℤ win.height) my

-- The two tests that keep a coordinate between two limits, the lower one first.
abbrev pub limit : ℤ → ℤ → ℤ → ℤ
limit low high v = let v = if ltb_ℤ v low then low else v in if ltb_ℤ high v then high else v

unfoldable pub dragged : ℤ → ℤ → Window → Window
unfolding ◌+ℤ◌ ◌-ℤ◌
dragged new_x new_y win = record win {
  x = limit (pos 50 -ℤ win.width) (pos 1230) new_x;
  y = limit (pos 73) (pos 610 -ℤ win.height) new_y;
}

abbrev pub deactivate : Window → Window
deactivate w = record w { is_active = false }

abbrev pub activate : Window → Window
activate w = record w { is_active = true }

abbrev pub Run : Type 0
Run = Outcome (Unit {0}) Error × WindowManager

-- While a title bar is dragged.
abbrev pub drop_dragged : ℤ → ℤ → WindowManager → Option (Window × List Window) → Run
drop_dragged mx my wm none = (panic, wm)
drop_dragged mx my wm (some (win, rest)) = (
  ok tt,
  record wm {
    windows = rest ++ dragged (mx -ℤ wm.drag_offset_x) (my -ℤ wm.drag_offset_y) win ∷ [];
    active_window_idx = some (length rest);
  },
)

-- A click on a title bar starts to drag.
abbrev pub grab : ℤ → ℤ → WindowManager → Option (Window × List Window) → Run
grab mx my wm none = (panic, wm)
grab mx my wm (some (win, rest)) = (
  ok tt,
  record {
    windows = map deactivate rest ++ activate win ∷ [];
    active_window_idx = some (length rest);
    is_dragging = true;
    drag_offset_x = mx -ℤ win.x;
    drag_offset_y = my -ℤ win.y;
  },
)

-- A click in a window brings it to the top.
abbrev pub focus : WindowManager → Option (Window × List Window) → Run
focus wm none = (panic, wm)
focus wm (some (win, rest)) =
    (ok tt, record wm { windows = map deactivate rest ++ activate win ∷ [] })

abbrev pub drag : ℤ → ℤ → WindowManager → Option ℕ → Run
drag mx my wm none = (ok tt, wm)
drag mx my wm (some idx) = drop_dragged mx my wm (take_window idx wm.windows)

abbrev pub click_body : WindowManager → Option ℕ → Run
click_body wm none = (ok tt, wm)
click_body wm (some idx) = focus wm (take_window idx wm.windows)

abbrev pub click : ℤ → ℤ → WindowManager → Option ℕ → Run
click mx my wm (some idx) = grab mx my wm (take_window idx wm.windows)
click mx my wm none = click_body wm (topmost (in_body mx my) wm.windows)

unfoldable pub handle_mouse : ℤ → ℤ → Bool → WindowManager → Run
unfolding ◌-ℤ◌ take_window topmost in_title in_body dragged
handle_mouse mx my clicked wm =
    if clicked
    then (if wm.is_dragging
        then drag mx my wm wm.active_window_idx
        else click mx my wm (topmost (in_title mx my) wm.windows))
    else (ok tt, record wm { is_dragging = false; active_window_idx = none })
