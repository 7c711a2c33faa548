-- ===== src/Input/Mouse.antt =====
-- kernel-x86/src/mouse.rs: the decoder of the packets of three bytes that the mouse sends. The
-- atomic variables are the fields of a record; `handle_byte` gives the event that
-- `handle_mouse_interrupt` pushes. The set-up of the controller, port input and output, is left out.
pub mod Screen
use package.rustix_os.Prelude.{
  ℕ, ◌-◌, Bool, true, false, not, ◌==◌, ltb, if◌then◌else◌, Option, none, some,
}
use package.rustix_os.Prelude.Int.{ℤ, pos, negsuc, ◌+ℤ◌, ◌-ℤ◌, ltb_ℤ}
use package.rustix_os.Prelude.Words.{bit}

abbrev pub screen_width : ℕ
screen_width = 1280

abbrev pub screen_height : ℕ
screen_height = 720

-- usermode-x86/src/syscall.rs.
pub record InputEvent : Type 0 where
  pub event_type : ℕ
  pub keyboard_key : ℕ
  pub mouse_x : ℤ
  pub mouse_y : ℤ
  pub mouse_left_clicked : ℕ
  pub mouse_right_clicked : ℕ

pub record Mouse : Type 0 where
  pub x : ℤ
  pub y : ℤ
  pub left_clicked : Bool
  pub right_clicked : Bool
  pub cycle : ℕ
  pub packet_0 : ℕ
  pub packet_1 : ℕ
  pub packet_2 : ℕ

abbrev pub new : Mouse
new = record {
  x = pos 640;
  y = pos 360;
  left_clicked = false;
  right_clicked = false;
  cycle = 0;
  packet_0 = 0;
  packet_1 = 0;
  packet_2 = 0;
}

-- `byte as i8 as i32`.
abbrev pub as_i8 : ℕ → ℤ
as_i8 byte = if ltb byte 128 then pos byte else negsuc (255 - byte)

-- The two tests that keep a coordinate on a screen of `limit` pixels.
abbrev pub clamp : ℕ → ℤ → ℤ
clamp limit v =
    let v = if ltb_ℤ v (pos 0) then pos 0 else v in
    if ltb_ℤ v (pos limit) then v else pos (limit - 1)

abbrev pub flag : Bool → ℕ
flag b = if b then 1 else 0

abbrev pub mouse_event : Mouse → InputEvent
mouse_event m = record {
  event_type = 2;
  keyboard_key = 0;
  mouse_x = m.x;
  mouse_y = m.y;
  mouse_left_clicked = flag m.left_clicked;
  mouse_right_clicked = flag m.right_clicked;
}

-- The third byte completes a packet.
unfoldable pub move_cursor : Mouse → Mouse
unfolding ◌+ℤ◌ ◌-ℤ◌
move_cursor m = record m {
  x = clamp screen_width (m.x +ℤ as_i8 m.packet_1);
  y = clamp screen_height (m.y -ℤ as_i8 m.packet_2);
  left_clicked = not (bit m.packet_0 0 == 0);
  right_clicked = not (bit m.packet_0 1 == 0);
}

unfoldable pub handle_byte : ℕ → Mouse → Option InputEvent × Mouse
unfolding move_cursor
handle_byte byte m =
    if m.cycle == 0
    then (none, if bit byte 3 == 0 then m else record m { packet_0 = byte; cycle = 1 })
    else (if m.cycle == 1
        then (none, record m { packet_1 = byte; cycle = 2 })
        else (if m.cycle == 2
            then (let moved = move_cursor (record m { packet_2 = byte; cycle = 0 }) in
                (some (mouse_event moved), moved))
            else (none, record m { cycle = 0 })))
