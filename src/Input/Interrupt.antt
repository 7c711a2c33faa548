-- ===== src/Input/Interrupt.antt =====
-- The interrupt handlers of the keyboard and the mouse, and the queue of events that they fill:
-- kernel-x86/src/interrupts.rs, with `poll_keyboard` of keyboard.rs. The statics are the fields of a
-- record, without their locks; a handler, a poll and a read are each one step, which nothing
-- interrupts. What a port gives is an argument. A program's copy of an event stays as it is when the
-- queue is empty.
pub mod Ready
pub mod Reach
pub mod Value
use package.rustix_os.Prelude.{ℕ, Bool, ◌==◌, if◌then◌else◌, Option, none, some}
use package.rustix_os.Prelude.Int.{pos}
use package.rustix_os.Prelude.Words.{bit}
use package.rustix_os.Outcome.{Outcome, ok, err, panic, Error}
use package.rustix_os.Input.Ring
use package.rustix_os.Input.Ring.{RingBuffer, push, pop}
use package.rustix_os.Input.Keyboard
use package.rustix_os.Input.Keyboard.{
  KeyboardInput, char, backspace, enter, f1, f2, f3, f4, page_up, page_down, arrow_up, arrow_down,
  KeyboardState, handle_scancode,
}
use package.rustix_os.Input.Mouse
use package.rustix_os.Input.Mouse.{InputEvent, Mouse, handle_byte}

pub record Input : Type 0 where
  pub events : RingBuffer InputEvent
  pub keyboard : KeyboardState
  pub keyboard_buffer : Option KeyboardInput
  pub mouse : Mouse

unfoldable pub new : Input
unfolding Ring.new
new = record {
  events = Ring.new 256;
  keyboard = Keyboard.new;
  keyboard_buffer = none;
  mouse = Mouse.new;
}

abbrev pub Run : Type 0 → Type 0
Run A = Outcome A Error × Input

-- `INPUT_QUEUE.lock().push(event)`: an event that finds the queue full is lost.
abbrev pub after_push : Input → Outcome Bool Error × RingBuffer InputEvent → Run (Unit {0})
after_push s (ok b, events) = (ok tt, record s { events = events })
after_push s (err e, events) = (err e, record s { events = events })
after_push s (panic, events) = (panic, record s { events = events })

unfoldable pub push_input_event : InputEvent → Input → Run (Unit {0})
unfolding push
push_input_event event s = after_push s (push 256 event s.events)

unfoldable pub pop_input_event : InputEvent → Input → Run (Bool × InputEvent)
unfolding pop
pop_input_event event_out s = let r = pop 256 event_out s.events in (r.0, record s { events = r.1 })

abbrev pub key_value : KeyboardInput → ℕ
key_value (char c) = c
key_value backspace = 0x1000
key_value enter = 0x1001
key_value f1 = 0x1002
key_value f2 = 0x1003
key_value f3 = 0x1004
key_value f4 = 0x1005
key_value page_up = 0x1006
key_value page_down = 0x1007
key_value arrow_up = 0x1008
key_value arrow_down = 0x1009

abbrev pub key_event : KeyboardInput → InputEvent
key_event input = record {
  event_type = 1;
  keyboard_key = key_value input;
  mouse_x = pos 0;
  mouse_y = pos 0;
  mouse_left_clicked = 0;
  mouse_right_clicked = 0;
}

-- `*KEYBOARD_BUFFER.lock() = Some(input)`.
abbrev pub buffer_key : KeyboardInput → Run (Unit {0}) → Run (Unit {0})
buffer_key input (ok u, s) = (ok u, record s { keyboard_buffer = some input })
buffer_key input (err e, s) = (err e, s)
buffer_key input (panic, s) = (panic, s)

abbrev pub queue_key : Option KeyboardInput → Input → Run (Unit {0})
queue_key none s = (ok tt, s)
queue_key (some input) s = buffer_key input (push_input_event (key_event input) s)

unfoldable pub keyboard_interrupt_handler : ℕ → Input → Run (Unit {0})
unfolding handle_scancode push_input_event
keyboard_interrupt_handler scancode s =
    let r = handle_scancode scancode s.keyboard in queue_key r.0 (record s { keyboard = r.1 })

abbrev pub queue_event : Option InputEvent → Input → Run (Unit {0})
queue_event none s = (ok tt, s)
queue_event (some event) s = push_input_event event s

unfoldable pub handle_mouse_interrupt : ℕ → Input → Run (Unit {0})
unfolding handle_byte push_input_event
handle_mouse_interrupt byte s =
    let r = handle_byte byte s.mouse in queue_event r.0 (record s { mouse = r.1 })

abbrev pub no_input : Run (Unit {0}) → Run (Option KeyboardInput)
no_input (ok u, s) = (ok none, s)
no_input (err e, s) = (err e, s)
no_input (panic, s) = (panic, s)

abbrev pub poll_ports : ℕ → ℕ → Input → Run (Option KeyboardInput)
poll_ports status byte s =
    if bit status 0 == 0
    then (ok none, s)
    else (if bit status 5 == 0
        then (let r = handle_scancode byte s.keyboard in (ok r.0, record s { keyboard = r.1 }))
        else no_input (handle_mouse_interrupt byte s))

-- `status` and `byte` are what ports 0x64 and 0x60 give.
abbrev pub poll_buffer : Option KeyboardInput → ℕ → ℕ → Input → Run (Option KeyboardInput)
poll_buffer (some input) status byte s = (ok (some input), record s { keyboard_buffer = none })
poll_buffer none status byte s = poll_ports status byte s

unfoldable pub poll_keyboard : ℕ → ℕ → Input → Run (Option KeyboardInput)
unfolding handle_scancode handle_mouse_interrupt
poll_keyboard status byte s = poll_buffer s.keyboard_buffer status byte s
