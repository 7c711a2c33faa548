-- ===== src/Input/Keyboard.antt =====
-- kernel-x86/src/keyboard.rs: from the scan codes of the keyboard to characters and keys. A
-- character is its code point; the two tables have a row for each arm of the source's `match`, with
-- the scan code, the character under shift and the one without.
pub mod Keys
use package.rustix_os.Prelude.{
  ℕ, Bool, true, false, ◌==◌, ◌||◌, if◌then◌else◌, Option, none, some, List, [], ◌∷◌,
}
use package.rustix_os.Prelude.Words.{bit}

pub data KeyboardInput : Type 0 where
  char : ℕ → KeyboardInput
  backspace enter f1 f2 f3 f4 page_up page_down arrow_up arrow_down : KeyboardInput

pub data KeyboardLayout : Type 0 where
  us trq : KeyboardLayout

pub record KeyboardState : Type 0 where
  pub shift_pressed : Bool
  pub layout : KeyboardLayout

abbrev pub new : KeyboardState
new = record { shift_pressed = false; layout = us }

abbrev pub set_layout : KeyboardLayout → KeyboardState → KeyboardState
set_layout layout s = record s { layout = layout }

pub record Key : Type 0 where
  pub scancode : ℕ
  pub shifted : ℕ
  pub plain : ℕ

abbrev key : ℕ → ℕ → ℕ → Key
key scancode shifted plain = record { scancode = scancode; shifted = shifted; plain = plain }

abbrev pub us_keys : List Key
us_keys =
    key 0x02 b'!' b'1'
    ∷ key 0x03 b'@' b'2'
    ∷ key 0x04 b'#' b'3'
    ∷ key 0x05 b'$' b'4'
    ∷ key 0x06 b'%' b'5'
    ∷ key 0x07 b'^' b'6'
    ∷ key 0x08 b'&' b'7'
    ∷ key 0x09 b'*' b'8'
    ∷ key 0x0A b'(' b'9'
    ∷ key 0x0B b')' b'0'
    ∷ key 0x0C b'_' b'-'
    ∷ key 0x0D b'+' b'='
    ∷ key 0x10 b'Q' b'q'
    ∷ key 0x11 b'W' b'w'
    ∷ key 0x12 b'E' b'e'
    ∷ key 0x13 b'R' b'r'
    ∷ key 0x14 b'T' b't'
    ∷ key 0x15 b'Y' b'y'
    ∷ key 0x16 b'U' b'u'
    ∷ key 0x17 b'I' b'i'
    ∷ key 0x18 b'O' b'o'
    ∷ key 0x19 b'P' b'p'
    ∷ key 0x1A b'{' b'['
    ∷ key 0x1B b'}' b']'
    ∷ key 0x1E b'A' b'a'
    ∷ key 0x1F b'S' b's'
    ∷ key 0x20 b'D' b'd'
    ∷ key 0x21 b'F' b'f'
    ∷ key 0x22 b'G' b'g'
    ∷ key 0x23 b'H' b'h'
    ∷ key 0x24 b'J' b'j'
    ∷ key 0x25 b'K' b'k'
    ∷ key 0x26 b'L' b'l'
    ∷ key 0x27 b':' b';'
    ∷ key 0x28 0x22 0x27
    ∷ key 0x2C b'Z' b'z'
    ∷ key 0x2D b'X' b'x'
    ∷ key 0x2E b'C' b'c'
    ∷ key 0x2F b'V' b'v'
    ∷ key 0x30 b'B' b'b'
    ∷ key 0x31 b'N' b'n'
    ∷ key 0x32 b'M' b'm'
    ∷ key 0x33 b'<' b','
    ∷ key 0x34 b'>' b'.'
    ∷ key 0x35 b'?' b'/'
    ∷ key 0x39 b' ' b' '
    ∷ []

abbrev pub trq_keys : List Key
trq_keys =
    key 0x02 b'!' b'1'
    ∷ key 0x03 0x27 b'2'
    ∷ key 0x04 b'^' b'3'
    ∷ key 0x05 b'+' b'4'
    ∷ key 0x06 b'%' b'5'
    ∷ key 0x07 b'&' b'6'
    ∷ key 0x08 b'/' b'7'
    ∷ key 0x09 b'(' b'8'
    ∷ key 0x0A b')' b'9'
    ∷ key 0x0B b'=' b'0'
    ∷ key 0x0C b'?' b'*'
    ∷ key 0x0D b'_' b'-'
    ∷ key 0x10 b'Q' b'q'
    ∷ key 0x11 b'W' b'w'
    ∷ key 0x12 b'E' b'e'
    ∷ key 0x13 b'R' b'r'
    ∷ key 0x14 b'T' b't'
    ∷ key 0x15 b'Y' b'y'
    ∷ key 0x16 b'U' b'u'
    ∷ key 0x17 b'I' b'i'
    ∷ key 0x18 b'O' b'o'
    ∷ key 0x19 b'P' b'p'
    ∷ key 0x1A b'G' b'g'
    ∷ key 0x1B b'U' b'u'
    ∷ key 0x1E b'A' b'a'
    ∷ key 0x1F b'S' b's'
    ∷ key 0x20 b'D' b'd'
    ∷ key 0x21 b'F' b'f'
    ∷ key 0x22 b'G' b'g'
    ∷ key 0x23 b'H' b'h'
    ∷ key 0x24 b'J' b'j'
    ∷ key 0x25 b'K' b'k'
    ∷ key 0x26 b'L' b'l'
    ∷ key 0x27 b'S' b's'
    ∷ key 0x28 b'I' b'i'
    ∷ key 0x2B b';' b','
    ∷ key 0x2C b'Z' b'z'
    ∷ key 0x2D b'X' b'x'
    ∷ key 0x2E b'C' b'c'
    ∷ key 0x2F b'V' b'v'
    ∷ key 0x30 b'B' b'b'
    ∷ key 0x31 b'N' b'n'
    ∷ key 0x32 b'M' b'm'
    ∷ key 0x33 b'O' b'o'
    ∷ key 0x34 b'C' b'c'
    ∷ key 0x35 b':' b'.'
    ∷ key 0x39 b' ' b' '
    ∷ []

abbrev pub char_map : KeyboardLayout → List Key
char_map us = us_keys
char_map trq = trq_keys

abbrev pub find_key : ℕ → Bool → List Key → Option ℕ
find_key scancode shift [] = none
find_key scancode shift (k ∷ ks) =
    if scancode == k.scancode
    then some (if shift then k.shifted else k.plain)
    else find_key scancode shift ks

unfoldable pub translate_scancode : ℕ → Bool → KeyboardLayout → Option ℕ
translate_scancode scancode shift layout = find_key scancode shift (char_map layout)

-- The keys that stand for the same input under every layout.
abbrev pub find_special : ℕ → List (ℕ × KeyboardInput) → Option KeyboardInput
find_special scancode [] = none
find_special scancode ((code, input) ∷ rest) =
    if scancode == code then some input else find_special scancode rest

abbrev pub special_keys : List (ℕ × KeyboardInput)
special_keys =
    (0x0E, backspace)
    ∷ (0x1C, enter)
    ∷ (0x3B, f1)
    ∷ (0x3C, f2)
    ∷ (0x3D, f3)
    ∷ (0x3E, f4)
    ∷ (0x49, page_up)
    ∷ (0x51, page_down)
    ∷ (0x48, arrow_up)
    ∷ (0x50, arrow_down)
    ∷ []

abbrev pub as_char : Option ℕ → Option KeyboardInput
as_char none = none
as_char (some c) = some (char c)

abbrev pub standard_key : ℕ → KeyboardState → Option KeyboardInput → Option KeyboardInput
standard_key scancode s (some input) = some input
standard_key scancode s none =
    if bit scancode 7 == 0
    then as_char (translate_scancode scancode s.shift_pressed s.layout)
    else none

unfoldable pub handle_scancode : ℕ → KeyboardState → Option KeyboardInput × KeyboardState
unfolding translate_scancode
handle_scancode scancode s =
    if scancode == 0x2A || scancode == 0x36
    then (none, record s { shift_pressed = true })
    else (if scancode == 0xAA || scancode == 0xB6
        then (none, record s { shift_pressed = false })
        else (standard_key scancode s (find_special scancode special_keys), s))
