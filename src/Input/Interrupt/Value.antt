-- ===== src/Input/Interrupt/Value.antt =====
-- The numbers by which programs tell keys apart.
use package.rustix_os.Prelude.{ℕ, ◌≡◌, refl, sym, ap, ◌∙◌, arith, ltb, ◌==◌, if◌then◌else◌}
use package.rustix_os.Input.Keyboard.{
  KeyboardInput, char, backspace, enter, f1, f2, f3, f4, page_up, page_down, arrow_up, arrow_down,
}
use package.rustix_os.Input.Keyboard.Keys.{IsInput}
use package.rustix_os.Input.Interrupt.{key_value}

-- The input that has a value.
input_of : ℕ → KeyboardInput
input_of v =
    if ltb v 0x1000
    then char v
    else (if v == 0x1000
        then backspace
        else (if v == 0x1001
            then enter
            else (if v == 0x1002
                then f1
                else (if v == 0x1003
                    then f2
                    else (if v == 0x1004
                        then f3
                        else (if v == 0x1005
                            then f4
                            else (if v == 0x1006
                                then page_up
                                else (if v == 0x1007
                                    then page_down
                                    else (if v == 0x1008 then arrow_up else arrow_down)))))))))

input_of-key_value : (input : KeyboardInput) → IsInput input → input_of (key_value input) ≡ input
unfolding input_of
input_of-key_value (char c) h = ground (arith, h)
input_of-key_value backspace h = refl
input_of-key_value enter h = refl
input_of-key_value f1 h = refl
input_of-key_value f2 h = refl
input_of-key_value f3 h = refl
input_of-key_value f4 h = refl
input_of-key_value page_up h = refl
input_of-key_value page_down h = refl
input_of-key_value arrow_up h = refl
input_of-key_value arrow_down h = refl

-- Two inputs, their characters printable, with the same value in an event are the same.
pub key_value-injective :
    (a b : KeyboardInput) → IsInput a → IsInput b → key_value a ≡ key_value b → a ≡ b
key_value-injective a b h k e =
    sym (input_of-key_value a h) ∙ ap input_of e ∙ input_of-key_value b k
