-- ===== src/WindowsTests.antt =====
-- The window manager: the theorems at concrete inputs.
use rustix_os.Prelude.{◌≡◌, refl, arith, true, false, [], ◌∷◌}
use rustix_os.Prelude.Int.{pos, ◌+ℤ◌, ◌-ℤ◌, ◌≤ℤ◌}
use rustix_os.Windows.{Window, new, take_window, topmost, in_title, in_body, dragged, handle_mouse}
use rustix_os.Windows.Arranged.{ids, Handled, new-IsArranged, handle_mouse-Handled}
use rustix_os.Windows.Bounds.{dragged_lem}

-- A click on the title of the window with the telemetry brings it to the top.
telemetry_on_top : ids (handle_mouse (pos 100) (pos 90) true new).1.windows ≡ 2 ∷ 1 ∷ 0 ∷ []
unfolding new handle_mouse take_window topmost in_title in_body dragged ◌+ℤ◌ ◌-ℤ◌
telemetry_on_top = refl

handle_mouse-Handled_example : Handled new (handle_mouse (pos 100) (pos 90) true new)
handle_mouse-Handled_example = handle_mouse-Handled (pos 100) (pos 90) true new new-IsArranged

abbrev radar : Window
radar = record {
  id = 2;
  x = pos 180;
  y = pos 360;
  width = pos 280;
  height = pos 140;
  is_active = false;
}

dragged_lem_example :
    let w = dragged (pos 2000) (pos 5) radar in
    (pos 73 ≤ℤ w.y)
    × (w.y +ℤ radar.height ≤ℤ pos 610)
    × (pos 50 ≤ℤ w.x +ℤ radar.width)
    × (w.x ≤ℤ pos 1230)
dragged_lem_example = dragged_lem (pos 2000) (pos 5) radar (omega arith) (omega arith)
