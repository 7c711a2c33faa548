-- ===== src/Input/Mouse/Screen.antt =====
-- The cursor stays on the screen, and goes where the mouse moves it.
use package.rustix_os.Prelude.{
  ℕ, ◌-◌, ◌<◌, ◌≡◌, ◌≢◌, refl, ap, ◌∙◌, arith, true, false, ◌==◌, if_lem, Option, none, some, List,
  [], ◌∷◌,
}
use package.rustix_os.Prelude.Int.{ℤ, pos, ◌+ℤ◌, ◌-ℤ◌, ◌≤ℤ◌}
use package.rustix_os.Prelude.Words.{bit}
use package.rustix_os.Input.Mouse.{
  screen_width, screen_height, InputEvent, Mouse, as_i8, clamp, mouse_event, move_cursor,
  handle_byte,
}

-- From 0 to `limit - 1`.
pub record OnAxis (limit : ℕ) (v : ℤ) : Type 0 where
  pub low : pos 0 ≤ℤ v
  pub high : v ≤ℤ pos (limit - 1)

pub record OnScreen (x y : ℤ) : Type 0 where
  pub across : OnAxis screen_width x
  pub down : OnAxis screen_height y

clamp-OnAxis : (limit : ℕ) (v : ℤ) → 0 < limit → OnAxis limit (clamp limit v)
clamp-OnAxis limit v h = record { low = ground arith; high = ground arith }

clamp_inside : (limit : ℕ) (v : ℤ) → 0 < limit → OnAxis limit v → clamp limit v ≡ v
clamp_inside limit v p h = ground (arith, h.low, h.high)

-- An event that tells the state of the mouse.
abbrev pub Tells : Mouse → Option InputEvent → Type 0
Tells m none = Unit {0}
Tells m (some e) = e ≡ mouse_event m

-- What a byte does to a mouse whose cursor is on the screen.
pub record Tracked (r : Option InputEvent × Mouse) : Type 0 where
  pub on_screen : OnScreen r.1.x r.1.y
  pub event : Tells r.1 r.0

move_cursor-OnScreen : (m : Mouse) → OnScreen (move_cursor m).x (move_cursor m).y
unfolding move_cursor
move_cursor-OnScreen m = record {
  across = clamp-OnAxis screen_width (m.x +ℤ as_i8 m.packet_1) (omega arith);
  down = clamp-OnAxis screen_height (m.y -ℤ as_i8 m.packet_2) (omega arith);
}

-- Whatever byte the mouse sends, the cursor stays on the screen, and an event, if there is one, tells
-- where the cursor is and which buttons are pressed.
pub handle_byte-Tracked : (byte : ℕ) (m : Mouse) → OnScreen m.x m.y → Tracked (handle_byte byte m)
unfolding handle_byte
handle_byte-Tracked byte m h =
    if_lem Tracked (m.cycle == 0)
      (record {
        on_screen = if_lem (λ (m' : Mouse). OnScreen m'.x m'.y) (bit byte 3 == 0) h h;
        event = tt;
      })
      (if_lem Tracked (m.cycle == 1) (record { on_screen = h; event = tt })
        (if_lem Tracked (m.cycle == 2)
          (record {
            on_screen = move_cursor-OnScreen (record m { packet_2 = byte; cycle = 0 });
            event = refl;
          })
          (record { on_screen = h; event = tt })))

abbrev pub send : List ℕ → Mouse → Mouse
send [] m = m
send (byte ∷ bytes) m = send bytes (handle_byte byte m).1

first_byte :
    (byte : ℕ) (m : Mouse)
    → m.cycle ≡ 0
    → bit byte 3 ≢ 0
    → handle_byte byte m ≡ (none, record m { packet_0 = byte; cycle = 1 })
unfolding handle_byte
first_byte byte m e sync =
    let e0 : (m.cycle == 0) ≡ true = ground (arith, e) in
    let e3 : (bit byte 3 == 0) ≡ false = ground (arith, sync) in rw (e0, e3) refl

last_bytes :
    (dx dy : ℕ) (m : Mouse)
    → m.cycle ≡ 1
    → (handle_byte dy (handle_byte dx m).1).1
      ≡ move_cursor (record m { packet_1 = dx; packet_2 = dy; cycle = 0 })
unfolding handle_byte
last_bytes dx dy m e =
    let e0 : (m.cycle == 0) ≡ false = ground (arith, e) in
    let e1 : (m.cycle == 1) ≡ true = ground (arith, e) in rw (e0, e1) refl

send_packet :
    (flags dx dy : ℕ) (m : Mouse)
    → m.cycle ≡ 0
    → bit flags 3 ≢ 0
    → send (flags ∷ dx ∷ dy ∷ []) m
      ≡ move_cursor (record m { packet_0 = flags; packet_1 = dx; packet_2 = dy; cycle = 0 })
send_packet flags dx dy m e sync =
    ap (λ (r : Option InputEvent × Mouse). (handle_byte dy (handle_byte dx r.1).1).1)
      (first_byte flags m e sync)
    ∙ last_bytes dx dy (record m { packet_0 = flags; cycle = 1 }) refl

-- A packet moves the cursor by its two signed bytes, the second upwards, where that stays on the
-- screen, and the decoder is ready for the next packet.
pub send_packet_lem :
    (flags dx dy : ℕ) (m : Mouse)
    → m.cycle ≡ 0
    → bit flags 3 ≢ 0
    → OnScreen (m.x +ℤ as_i8 dx) (m.y -ℤ as_i8 dy)
    → let m' = send (flags ∷ dx ∷ dy ∷ []) m in
      (m'.cycle ≡ 0) × (m'.x ≡ m.x +ℤ as_i8 dx) × (m'.y ≡ m.y -ℤ as_i8 dy)
unfolding move_cursor
send_packet_lem flags dx dy m e sync h = rw (send_packet flags dx dy m e sync) (
  refl,
  clamp_inside screen_width _ (omega arith) h.across,
  clamp_inside screen_height _ (omega arith) h.down,
)
