-- ===== src/Input/Interrupt/Reach.antt =====
-- The input side of the kernel as a state machine.
use package.rustix_os.Prelude.{ℕ}
use package.rustix_os.Input.Keyboard.{KeyboardLayout, set_layout}
use package.rustix_os.Input.Keyboard.Keys.{IsAnswer}
use package.rustix_os.Input.Mouse.{InputEvent}
use package.rustix_os.Input.Interrupt.{
  Input, new, pop_input_event, keyboard_interrupt_handler, handle_mouse_interrupt, poll_keyboard,
}
use package.rustix_os.Input.Interrupt.Ready.{IsReady, Serves, Done}
use package.rustix_os.Input.Interrupt.Ready.Calls.{
  IsPopped, keyboard_interrupt_handler-Serves, handle_mouse_interrupt-Serves,
  pop_input_event-Serves, poll_keyboard-Serves, set_layout-IsReady, new-IsReady,
}

pub data Step (s : Input) : Input → Type 0 where
  key_interrupt : (scancode : ℕ) → Step s (keyboard_interrupt_handler scancode s).1
  mouse_interrupt : (byte : ℕ) → Step s (handle_mouse_interrupt byte s).1
  event_read : (event_out : InputEvent) → Step s (pop_input_event event_out s).1
  polled : (status byte : ℕ) → Step s (poll_keyboard status byte s).1
  layout_set :
      (layout : KeyboardLayout) → Step s (record s { keyboard = set_layout layout s.keyboard })

pub data Reach : Input → Type 0 where
  started : Reach new
  next : {s s' : Input} → Reach s → Step s s' → Reach s'

Step-IsReady : {s s' : Input} → IsReady s → Step s s' → IsReady s'
Step-IsReady {s} h (key_interrupt scancode) = (keyboard_interrupt_handler-Serves scancode s h).ready
Step-IsReady {s} h (mouse_interrupt byte) = (handle_mouse_interrupt-Serves byte s h).ready
Step-IsReady {s} h (event_read event_out) = (pop_input_event-Serves event_out s h).ready
Step-IsReady {s} h (polled status byte) = (poll_keyboard-Serves status byte s h).ready
Step-IsReady {s} h (layout_set layout) = set_layout-IsReady layout s h

pub Reach-IsReady : {s : Input} → Reach s → IsReady s
Reach-IsReady started = new-IsReady
Reach-IsReady (next r t) = Step-IsReady (Reach-IsReady r) t

-- What the operations give back in a state of the input.
pub record Answers (s : Input) (byte status : ℕ) (event_out : InputEvent) : Type 0 where
  pub interrupted : Serves Done (keyboard_interrupt_handler byte s)
  pub moved : Serves Done (handle_mouse_interrupt byte s)
  pub popped : Serves (IsPopped event_out) (pop_input_event event_out s)
  pub polled : Serves IsAnswer (poll_keyboard status byte s)

-- Where each handler, poll and read of events runs to its end before the next one starts: in every
-- state that they can lead to, in any order and with any bytes from the devices, neither handler
-- panics and both polls return without a panic; what a program reads is the event of a printable
-- character, of a special key or of a mouse on the screen.
pub Reach-Answers :
    {s : Input}
    → Reach s
    → (byte status : ℕ) (event_out : InputEvent) → Answers s byte status event_out
Reach-Answers {s} r byte status event_out =
    let h = Reach-IsReady r in
    record {
      interrupted = keyboard_interrupt_handler-Serves byte s h;
      moved = handle_mouse_interrupt-Serves byte s h;
      popped = pop_input_event-Serves event_out s h;
      polled = poll_keyboard-Serves status byte s h;
    }
