-- ===== src/Input/Keyboard/Keys.antt =====
-- What the keyboard decoder can give.
use package.rustix_os.Prelude.{
  ℕ, ◌≤◌, ◌≡◌, refl, arith, Bool, true, false, leb, ◌&&◌, Option, none, some, List, [], ◌∷◌,
}
use package.rustix_os.Input.Keyboard.{
  KeyboardInput, char, KeyboardLayout, us, trq, KeyboardState, Key, us_keys, trq_keys, find_key,
  translate_scancode, find_special, special_keys, as_char, standard_key, handle_scancode,
}

-- A printable character of ASCII.
abbrev pub IsPrintable : ℕ → Type 0
IsPrintable c = (0x20 ≤ c) × (c ≤ 0x7E)

abbrev printable : ℕ → Bool
printable c = leb 0x20 c && leb c 0x7E

abbrev all_printable : List Key → Bool
all_printable [] = true
all_printable (k ∷ ks) = printable k.shifted && printable k.plain && all_printable ks

-- The character of an input, if it has one, is printable.
abbrev pub IsInput : KeyboardInput → Type 0
IsInput (char c) = IsPrintable c
IsInput _ = Unit {0}

abbrev pub IsAnswer : Option KeyboardInput → Type 0
IsAnswer none = Unit {0}
IsAnswer (some input) = IsInput input

find_key-IsInput :
    (ks : List Key) (scancode : ℕ) (shift : Bool)
    → all_printable ks ≡ true
    → IsAnswer (as_char (find_key scancode shift ks))
find_key-IsInput [] scancode shift h = tt
find_key-IsInput (k ∷ ks) scancode true h = ground (arith, find_key-IsInput ks scancode true)
find_key-IsInput (k ∷ ks) scancode false h = ground (arith, find_key-IsInput ks scancode false)

translate_scancode-IsInput :
    (scancode : ℕ) (shift : Bool) (layout : KeyboardLayout)
    → IsAnswer (as_char (translate_scancode scancode shift layout))
unfolding translate_scancode
translate_scancode-IsInput scancode shift us = find_key-IsInput us_keys scancode shift refl
translate_scancode-IsInput scancode shift trq = find_key-IsInput trq_keys scancode shift refl

standard_key-IsInput :
    (scancode : ℕ) (s : KeyboardState) (o : Option KeyboardInput)
    → IsAnswer o
    → IsAnswer (standard_key scancode s o)
standard_key-IsInput scancode s (some input) h = h
standard_key-IsInput scancode s none h =
    ground (arith, translate_scancode-IsInput scancode s.shift_pressed s.layout)

abbrev AllInputs : List (ℕ × KeyboardInput) → Type 0
AllInputs [] = Unit {0}
AllInputs ((code, input) ∷ ks) = IsInput input × AllInputs ks

find_special-IsInput :
    (scancode : ℕ) (ks : List (ℕ × KeyboardInput))
    → AllInputs ks
    → IsAnswer (find_special scancode ks)
find_special-IsInput scancode [] h = tt
find_special-IsInput scancode ((code, input) ∷ ks) h =
    ground (arith, find_special-IsInput scancode ks)

special_inputs : AllInputs special_keys
special_inputs = (tt, (tt, (tt, (tt, (tt, (tt, (tt, (tt, (tt, (tt, tt))))))))))

-- Whatever byte the keyboard sends, and under either layout, a character that the decoder gives is a
-- printable character of ASCII.
pub handle_scancode-IsAnswer :
    (scancode : ℕ) (s : KeyboardState) → IsAnswer (handle_scancode scancode s).0
unfolding handle_scancode
handle_scancode-IsAnswer scancode s = ground (
  arith,
  standard_key-IsInput scancode s (find_special scancode special_keys)
      (find_special-IsInput scancode special_keys special_inputs),
)
