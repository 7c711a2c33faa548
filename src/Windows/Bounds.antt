-- ===== src/Windows/Bounds.antt =====
-- Where a window can be dragged.
use package.rustix_os.Prelude.{arith}
use package.rustix_os.Prelude.Int.{ℤ, pos, ◌+ℤ◌, ◌-ℤ◌, ◌≤ℤ◌}
use package.rustix_os.Windows.{Window, limit, dragged}

limit_between :
    (low high v : ℤ) → low ≤ℤ high → (low ≤ℤ limit low high v) × (limit low high v ≤ℤ high)
limit_between low high v h = (ground arith, ground arith)

add_below : (a b v : ℤ) → v ≤ℤ a -ℤ b → v +ℤ b ≤ℤ a
unfolding ◌+ℤ◌ ◌-ℤ◌
add_below a b v h = ground arith

add_above : (a b v : ℤ) → a -ℤ b ≤ℤ v → a ≤ℤ v +ℤ b
unfolding ◌+ℤ◌ ◌-ℤ◌
add_above a b v h = ground arith

room_down : (height : ℤ) → height ≤ℤ pos 537 → pos 73 ≤ℤ pos 610 -ℤ height
unfolding ◌-ℤ◌
room_down height h = ground arith

room_across : (width : ℤ) → pos 0 ≤ℤ width → pos 50 -ℤ width ≤ℤ pos 1230
unfolding ◌-ℤ◌
room_across width h = ground arith

-- Wherever the mouse drags a window that is no taller than the room between the bars and not of
-- negative width, its title stays below the header and its body above the tabs, and 50 pixels of its
-- width stay on the screen.
pub dragged_lem :
    (new_x new_y : ℤ) (win : Window)
    → pos 0 ≤ℤ win.width
    → win.height ≤ℤ pos 537
    → let w = dragged new_x new_y win in
      (pos 73 ≤ℤ w.y)
      × (w.y +ℤ win.height ≤ℤ pos 610)
      × (pos 50 ≤ℤ w.x +ℤ win.width)
      × (w.x ≤ℤ pos 1230)
unfolding dragged
dragged_lem new_x new_y win hw hh =
    let down = limit_between (pos 73) (pos 610 -ℤ win.height) new_y (room_down win.height hh) in
    let across = limit_between (pos 50 -ℤ win.width) (pos 1230) new_x (room_across win.width hw) in
    (
      down.0,
      add_below (pos 610) win.height (limit (pos 73) (pos 610 -ℤ win.height) new_y) down.1,
      add_above (pos 50) win.width (limit (pos 50 -ℤ win.width) (pos 1230) new_x) across.0,
      across.1,
    )
