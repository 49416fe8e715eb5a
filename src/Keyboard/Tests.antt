-- ===== src/Keyboard/Tests.antt =====
-- Instances of the theorems about kernel/keyboard.c.
use kanaos.Prelude.{◌≡◌, refl, arith, some, true, false}
use kanaos.Keyboard.{Keyboard, keymap_init, keyboard_handler}
use kanaos.Keyboard.Chars.{IsValid, plain_char, shifted_char, key_char}
use kanaos.Keyboard.Typing.{Types, typed, keyboard_handler-Types}
use kanaos.Keyboard.States.{Moves, keyboard_handler-Moves}

-- The keyboard at start, with caps lock on and task 5 waiting.
abbrev start : Keyboard
start = record {
  keymap = keymap_init;
  capslock_state = true;
  scrlock_state = false;
  numlock_state = false;
  extcode_state = false;
  waiter = some 5;
  fifo = record { buf = λ i. 0; head = 0; tail = 0 };
}

start-IsValid : IsValid start
unfolding keymap_init plain_char shifted_char
start-IsValid = record { queue = omega arith; plain = λ r. refl; shifted = λ r. refl }

-- The key 0x1e types a capital A.
typed_a : typed start false 0x1e ≡ b'A'
unfolding typed key_char shifted_char keymap_init
typed_a = refl

keyboard_handler-Types_example :
    Types start (typed start false 0x1e) (keyboard_handler 2 start 0x1e)
keyboard_handler-Types_example = keyboard_handler-Types 0 start 0x1e start-IsValid (omega arith)

keyboard_handler-Moves_example : Moves start false 0x3a 0 (keyboard_handler 2 start 0xba)
keyboard_handler-Moves_example =
    keyboard_handler-Moves 0 start 0xba start-IsValid (omega arith) (omega arith) (omega arith)
