-- ===== src/InputTests.antt =====
-- Input events: small runs, and the theorems at concrete inputs.
use rustix_os.Prelude.{ℕ, ◌≡◌, refl, arith, true, List, [], ◌∷◌, map}
use rustix_os.Prelude.Int.{◌+ℤ◌, ◌-ℤ◌}
use rustix_os.Outcome.{ok}
use rustix_os.Input.Ring
use rustix_os.Input.Ring.Runs.{Op, pushes, pops, serve_all, queue_serve_all, serve_all-new}
use rustix_os.Input.Keyboard.{trq, char, enter, translate_scancode, handle_scancode}
use rustix_os.Input.Keyboard.Keys.{IsAnswer, handle_scancode-IsAnswer}
use rustix_os.Input.Mouse
use rustix_os.Input.Mouse.{Mouse, as_i8, move_cursor, handle_byte}
use rustix_os.Input.Mouse.Screen.{OnScreen, Tracked, handle_byte-Tracked, send, send_packet_lem}
use rustix_os.Input.Interrupt
use rustix_os.Input.Interrupt.{
  Input, pop_input_event, push_input_event, keyboard_interrupt_handler, key_value, key_event,
}
use rustix_os.Input.Interrupt.Reach.{Reach, started, next, key_interrupt, Answers, Reach-Answers}
use rustix_os.Input.Interrupt.Value.{key_value-injective}

abbrev calls : List (Op ℕ)
calls = pops 9 ∷ pushes 1 ∷ pushes 2 ∷ pushes 3 ∷ pops 9 ∷ pushes 4 ∷ pops 9 ∷ pops 9 ∷ []

serve_all-new_example : serve_all 3 calls (Ring.new 3) ≡ map ok (queue_serve_all 3 calls [])
serve_all-new_example = serve_all-new 3 calls (omega arith)

-- Shift is held, then the key of the letter a goes down.
a_pressed-Reach :
    Reach (keyboard_interrupt_handler 0x1E (keyboard_interrupt_handler 0x2A Interrupt.new).1).1
a_pressed-Reach = next (next started (key_interrupt 0x2A)) (key_interrupt 0x1E)

a_read :
    (pop_input_event
      (key_event enter)
      (keyboard_interrupt_handler 0x1E (keyboard_interrupt_handler 0x2A Interrupt.new).1).1).0
    ≡ ok (true, key_event (char b'A'))
unfolding pop_input_event keyboard_interrupt_handler push_input_event handle_scancode
    translate_scancode Ring.push Ring.pop Ring.new Interrupt.new
a_read = refl

Reach-Answers_example :
    Answers
      (keyboard_interrupt_handler 0x1E (keyboard_interrupt_handler 0x2A Interrupt.new).1).1
      200
      1
      (key_event enter)
Reach-Answers_example = Reach-Answers a_pressed-Reach 200 1 (key_event enter)

handle_scancode-IsAnswer_example :
    IsAnswer (handle_scancode 0x1E (record { shift_pressed = true; layout = trq })).0
handle_scancode-IsAnswer_example =
    handle_scancode-IsAnswer 0x1E (record { shift_pressed = true; layout = trq })

start-OnScreen : OnScreen Mouse.new.x Mouse.new.y
start-OnScreen = record {
  across = record { low = omega arith; high = omega arith };
  down = record { low = omega arith; high = omega arith };
}

handle_byte-Tracked_example : Tracked (handle_byte 0x09 Mouse.new)
handle_byte-Tracked_example = handle_byte-Tracked 0x09 Mouse.new start-OnScreen

target-OnScreen : OnScreen (Mouse.new.x +ℤ as_i8 5) (Mouse.new.y -ℤ as_i8 254)
unfolding ◌+ℤ◌ ◌-ℤ◌
target-OnScreen = record {
  across = record { low = omega arith; high = omega arith };
  down = record { low = omega arith; high = omega arith };
}

send_packet_lem_example :
    let m' = send (0x09 ∷ 5 ∷ 254 ∷ []) Mouse.new in
    (m'.cycle ≡ 0) × (m'.x ≡ Mouse.new.x +ℤ as_i8 5) × (m'.y ≡ Mouse.new.y -ℤ as_i8 254)
send_packet_lem_example = send_packet_lem 0x09 5 254 Mouse.new refl (omega arith) target-OnScreen

key_value-injective_example : char b'a' ≡ char b'a'
key_value-injective_example =
    key_value-injective (char b'a') (char b'a') (omega arith, omega arith)
      (omega arith, omega arith) refl
