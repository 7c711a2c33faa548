-- ===== src/Input/Interrupt/Ready.antt =====
-- What holds of the input state however interrupts, polls and programs that read events alternate.
pub mod Calls
use package.rustix_os.Prelude.{
  ℕ, ◌+◌, ◌≡◌, refl, arith, Bool, true, false, ◌==◌, leb, if_lem, Option, none, some, List, [], ◌∷◌,
  ◌++◌, length,
}
use package.rustix_os.Prelude.Words.{bit}
use package.rustix_os.Outcome.{Outcome, ok, err, panic, Error, Yields}
use package.rustix_os.Input.Ring.{RingBuffer, push, pop}
use package.rustix_os.Input.Ring.Refine.{
  Holds, enqueue, dequeue, Agrees, new-Holds, push-Agrees, pop-Agrees,
}
use package.rustix_os.Input.Keyboard.{
  KeyboardInput, KeyboardLayout, KeyboardState, set_layout, handle_scancode,
}
use package.rustix_os.Input.Keyboard.Keys.{IsInput, IsAnswer, handle_scancode-IsAnswer}
use package.rustix_os.Input.Mouse.{InputEvent, Mouse, mouse_event, handle_byte}
use package.rustix_os.Input.Mouse.Screen.{OnScreen, Tells, handle_byte-Tracked}
use package.rustix_os.Input.Interrupt.{
  Input, new, Run, after_push, push_input_event, pop_input_event, key_event, buffer_key, queue_key,
  keyboard_interrupt_handler, queue_event, handle_mouse_interrupt, no_input, poll_buffer,
  poll_keyboard,
}

-- An event that a key makes, or the mouse with its cursor on the screen.
pub data IsEvent : InputEvent → Type 0 where
  of_key : (input : KeyboardInput) → IsInput input → IsEvent (key_event input)
  of_mouse : (m : Mouse) → OnScreen m.x m.y → IsEvent (mouse_event m)

abbrev pub AllEvents : List InputEvent → Type 0
AllEvents [] = Unit {0}
AllEvents (e ∷ es) = IsEvent e × AllEvents es

pub record IsReady (s : Input) : Type 0 where
  pub queue : List InputEvent
  pub holds : Holds 256 s.events queue
  pub events : AllEvents queue
  pub buffered : IsAnswer s.keyboard_buffer
  pub on_screen : OnScreen s.mouse.x s.mouse.y

-- The call succeeds with such a value, and the state after it is ready.
pub record Serves {A : Type 0} (Post : A → Type 0) (r : Run A) : Type 0 where
  pub yields : Yields Post r.0
  pub ready : IsReady r.1

abbrev pub Done : Unit {0} → Type 0
Done u = Unit {0}

AllEvents-append :
    (q : List InputEvent) (e : InputEvent) → AllEvents q → IsEvent e → AllEvents (q ++ e ∷ [])
AllEvents-append [] e h k = (k, tt)
AllEvents-append (x ∷ q) e h k = (h.0, AllEvents-append q e h.1 k)

AllEvents-enqueue :
    (e : InputEvent) (q : List InputEvent) → AllEvents q → IsEvent e → AllEvents (enqueue 256 e q).1
AllEvents-enqueue e q h k =
    if_lem (λ (r : Bool × List InputEvent). AllEvents r.1) (leb 256 (length q + 1)) h
      (AllEvents-append q e h k)

after_push-Serves :
    (s : Input) (q : List InputEvent) (r : Outcome Bool Error × RingBuffer InputEvent) (b : Bool)
    → IsReady s
    → AllEvents q
    → Agrees 256 r (b, q)
    → Serves Done (after_push s r)
after_push-Serves s q (ok b', events) b h k a = record {
  yields = tt;
  ready = record {
    queue = q;
    holds = a.holds;
    events = k;
    buffered = h.buffered;
    on_screen = h.on_screen;
  };
}
after_push-Serves s q (err e, events) b h k a = absurd cc
after_push-Serves s q (panic, events) b h k a = absurd cc

pub push_input_event-Serves :
    (e : InputEvent) (s : Input) → IsReady s → IsEvent e → Serves Done (push_input_event e s)
unfolding push_input_event
push_input_event-Serves e s h k =
    after_push-Serves s (enqueue 256 e h.queue).1 (push 256 e s.events) (enqueue 256 e h.queue).0 h
      (AllEvents-enqueue e h.queue h.events k) (push-Agrees 256 e s.events h.queue h.holds)
