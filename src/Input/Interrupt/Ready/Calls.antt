-- ===== src/Input/Interrupt/Ready/Calls.antt =====
-- The calls of the input side, on a state that is ready.
use package.rustix_os.Prelude.{
  ℕ, ◌≡◌, refl, arith, Bool, true, false, ◌==◌, if_lem, Option, none, some, List, [], ◌∷◌,
}
use package.rustix_os.Prelude.Words.{bit}
use package.rustix_os.Outcome.{Outcome, ok, err, panic, Error}
use package.rustix_os.Input.Ring.{RingBuffer, pop}
use package.rustix_os.Input.Ring.Refine.{dequeue, Agrees, new-Holds, pop-Agrees}
use package.rustix_os.Input.Keyboard.{
  KeyboardInput, KeyboardLayout, KeyboardState, set_layout, handle_scancode,
}
use package.rustix_os.Input.Keyboard.Keys.{IsInput, IsAnswer, handle_scancode-IsAnswer}
use package.rustix_os.Input.Mouse.{InputEvent, handle_byte}
use package.rustix_os.Input.Mouse.Screen.{Tells, handle_byte-Tracked}
use package.rustix_os.Input.Interrupt.{
  Input, new, Run, push_input_event, pop_input_event, key_event, buffer_key, queue_key,
  keyboard_interrupt_handler, queue_event, handle_mouse_interrupt, no_input, poll_buffer,
  poll_keyboard,
}
use package.rustix_os.Input.Interrupt.Ready.{
  IsEvent, of_key, of_mouse, AllEvents, IsReady, Serves, Done, push_input_event-Serves,
}

buffer_key-Serves :
    (input : KeyboardInput) (r : Run (Unit {0}))
    → IsInput input
    → Serves Done r
    → Serves Done (buffer_key input r)
buffer_key-Serves input (ok u, s) h k = record {
  yields = tt;
  ready = record {
    queue = k.ready.queue;
    holds = k.ready.holds;
    events = k.ready.events;
    buffered = h;
    on_screen = k.ready.on_screen;
  };
}
buffer_key-Serves input (err e, s) h k = absurd k.yields
buffer_key-Serves input (panic, s) h k = absurd k.yields

with_keyboard-IsReady :
    (s : Input) (keyboard : KeyboardState) → IsReady s → IsReady (record s { keyboard = keyboard })
with_keyboard-IsReady s keyboard h = record {
  queue = h.queue;
  holds = h.holds;
  events = h.events;
  buffered = h.buffered;
  on_screen = h.on_screen;
}

queue_key-Serves :
    (o : Option KeyboardInput) (s : Input) → IsAnswer o → IsReady s → Serves Done (queue_key o s)
queue_key-Serves none s h k = record { yields = tt; ready = k }
queue_key-Serves (some input) s h k =
    buffer_key-Serves input (push_input_event (key_event input) s) h
      (push_input_event-Serves (key_event input) s k (of_key input h))

pub keyboard_interrupt_handler-Serves :
    (scancode : ℕ) (s : Input) → IsReady s → Serves Done (keyboard_interrupt_handler scancode s)
unfolding keyboard_interrupt_handler
keyboard_interrupt_handler-Serves scancode s h =
    let r = handle_scancode scancode s.keyboard in
    queue_key-Serves r.0 (record s { keyboard = r.1 })
      (handle_scancode-IsAnswer scancode s.keyboard) (with_keyboard-IsReady s r.1 h)

queue_event-Serves :
    (o : Option InputEvent) (s : Input)
    → IsReady s
    → Tells s.mouse o
    → Serves Done (queue_event o s)
queue_event-Serves none s h t = record { yields = tt; ready = h }
queue_event-Serves (some e) s h t =
    push_input_event-Serves e s h (rw t (of_mouse s.mouse h.on_screen))

pub handle_mouse_interrupt-Serves :
    (byte : ℕ) (s : Input) → IsReady s → Serves Done (handle_mouse_interrupt byte s)
unfolding handle_mouse_interrupt
handle_mouse_interrupt-Serves byte s h =
    let r = handle_byte byte s.mouse in
    let t = handle_byte-Tracked byte s.mouse h.on_screen in
    queue_event-Serves r.0 (record s { mouse = r.1 })
      (record {
        queue = h.queue;
        holds = h.holds;
        events = h.events;
        buffered = h.buffered;
        on_screen = t.on_screen;
      })
      t.event

-- What a program gets: an event, or its own copy back.
abbrev pub IsPopped : InputEvent → Bool × InputEvent → Type 0
IsPopped event_out (true, e) = IsEvent e
IsPopped event_out (false, e) = e ≡ event_out

dequeued-Serves :
    (event_out : InputEvent) (s : Input) (q : List InputEvent)
    (r : Outcome (Bool × InputEvent) Error × RingBuffer InputEvent)
    → IsReady s
    → AllEvents q
    → Agrees 256 r (dequeue event_out q)
    → Serves (IsPopped event_out) (r.0, record s { events = r.1 })
dequeued-Serves event_out s [] (o, events) h k a = record {
  yields = rw a.answers refl;
  ready = record {
    queue = [];
    holds = a.holds;
    events = tt;
    buffered = h.buffered;
    on_screen = h.on_screen;
  };
}
dequeued-Serves event_out s (e ∷ q) (o, events) h k a = record {
  yields = rw a.answers (k.0);
  ready = record {
    queue = q;
    holds = a.holds;
    events = k.1;
    buffered = h.buffered;
    on_screen = h.on_screen;
  };
}

pub pop_input_event-Serves :
    (event_out : InputEvent) (s : Input)
    → IsReady s
    → Serves (IsPopped event_out) (pop_input_event event_out s)
unfolding pop_input_event
pop_input_event-Serves event_out s h =
    dequeued-Serves event_out s h.queue (pop 256 event_out s.events) h h.events
      (pop-Agrees 256 event_out s.events h.queue h.holds)

no_input-Serves : (r : Run (Unit {0})) → Serves Done r → Serves IsAnswer (no_input r)
no_input-Serves (ok u, s) h = record { yields = tt; ready = h.ready }
no_input-Serves (err e, s) h = absurd h.yields
no_input-Serves (panic, s) h = absurd h.yields

poll_buffer-Serves :
    (o : Option KeyboardInput) (status byte : ℕ) (s : Input)
    → IsAnswer o
    → IsReady s
    → Serves IsAnswer (poll_buffer o status byte s)
poll_buffer-Serves (some input) status byte s a h = record {
  yields = a;
  ready = record {
    queue = h.queue;
    holds = h.holds;
    events = h.events;
    buffered = tt;
    on_screen = h.on_screen;
  };
}
poll_buffer-Serves none status byte s a h =
    let r = handle_scancode byte s.keyboard in
    if_lem (Serves IsAnswer) (bit status 0 == 0) (record { yields = tt; ready = h })
      (if_lem (Serves IsAnswer) (bit status 5 == 0)
        (record {
          yields = handle_scancode-IsAnswer byte s.keyboard;
          ready = with_keyboard-IsReady s r.1 h;
        })
        (no_input-Serves (handle_mouse_interrupt byte s) (handle_mouse_interrupt-Serves byte s h)))

pub poll_keyboard-Serves :
    (status byte : ℕ) (s : Input) → IsReady s → Serves IsAnswer (poll_keyboard status byte s)
unfolding poll_keyboard
poll_keyboard-Serves status byte s h =
    poll_buffer-Serves s.keyboard_buffer status byte s h.buffered h

pub set_layout-IsReady :
    (layout : KeyboardLayout) (s : Input)
    → IsReady s
    → IsReady (record s { keyboard = set_layout layout s.keyboard })
set_layout-IsReady layout s h = with_keyboard-IsReady s (set_layout layout s.keyboard) h

pub new-IsReady : IsReady new
unfolding new
new-IsReady = record {
  queue = [];
  holds = new-Holds 256 (omega arith);
  events = tt;
  buffered = tt;
  on_screen = record {
    across = record { low = omega arith; high = omega arith };
    down = record { low = omega arith; high = omega arith };
  };
}
