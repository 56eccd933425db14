-- ===== src/Keyboard.antt =====
-- kernel/dev/keyboard.c, with include/comm/keyboard.h: from scan codes to characters on the screen.
-- A character is its ASCII code.
pub mod Keys
use weg_os.Base.{
  ℕ, zero, suc, ◌*◌, ◌/◌, ◌%◌, ◌^◌, Bool, true, false, not, bit_and, ◌==◌, if◌then◌else◌, Option,
  none, some, List, [], ◌∷◌, Array,
}
use weg_os.Interrupt.{Ports, IdtDesc, pic_send_eoi, interrupt_enable, set_idt}
use weg_os.Console.{Console, putchar, print_back}

-- `keyboard_state`
pub record KeyboardState : Type 0 where
  pub caps_pressed : Bool
  pub left_shift_pressed : Bool
  pub right_shift_pressed : Bool
  pub ctrl_pressed : Bool
  pub left_alt_pressed : Bool
  pub right_alt_pressed : Bool

-- `ascii_case_t`
pub record AsciiCase : Type 0 where
  pub is_valid : Bool
  pub normal_ascii_code : ℕ
  pub caps_ascii_code : ℕ

-- `current_keyboard_state` and the console.
pub record Keyboard : Type 0 where
  pub state : KeyboardState
  pub console : Console

abbrev pub key_backspace : ℕ
key_backspace = 0xe

abbrev pub key_lshift : ℕ
key_lshift = 0x2a

abbrev pub key_caps : ℕ
key_caps = 0x3a

abbrev pub keyboard_interrupt : ℕ
keyboard_interrupt = 0x21

abbrev pub key : Bool → ℕ → ℕ → AsciiCase
key is_valid normal caps = record {
  is_valid = is_valid;
  normal_ascii_code = normal;
  caps_ascii_code = caps;
}

unfoldable pub keyboard_state_init : KeyboardState → KeyboardState
keyboard_state_init s = record {
  caps_pressed = false;
  left_shift_pressed = false;
  right_shift_pressed = false;
  ctrl_pressed = false;
  left_alt_pressed = false;
  right_alt_pressed = false;
}

-- The entries that the table is written with.
abbrev pub scan_table : List AsciiCase
scan_table =
    key false 32 32
    ∷ key false 32 32
    ∷ key true 49 33
    ∷ key true 50 64
    ∷ key true 51 35
    ∷ key true 52 36
    ∷ key true 53 37
    ∷ key true 54 94
    ∷ key true 55 38
    ∷ key true 56 42
    ∷ key true 57 40
    ∷ key true 48 41
    ∷ key true 45 95
    ∷ key true 61 43
    ∷ key false 127 127
    ∷ key true 9 9
    ∷ key true 113 81
    ∷ key true 119 87
    ∷ key true 101 69
    ∷ key true 114 82
    ∷ key true 116 84
    ∷ key true 121 89
    ∷ key true 117 85
    ∷ key true 105 73
    ∷ key true 111 79
    ∷ key true 112 80
    ∷ key true 91 123
    ∷ key true 93 125
    ∷ key true 10 10
    ∷ key false 32 32
    ∷ key true 97 65
    ∷ key true 115 66
    ∷ key true 100 68
    ∷ key true 102 70
    ∷ key true 103 71
    ∷ key true 104 72
    ∷ key true 106 74
    ∷ key true 107 75
    ∷ key true 108 76
    ∷ key true 59 58
    ∷ key true 39 34
    ∷ key true 96 126
    ∷ key false 32 32
    ∷ key true 92 124
    ∷ key true 122 90
    ∷ key true 120 88
    ∷ key true 99 67
    ∷ key true 118 86
    ∷ key true 98 66
    ∷ key true 110 78
    ∷ key true 109 77
    ∷ key true 44 60
    ∷ key true 46 62
    ∷ key true 47 63
    ∷ key false 32 32
    ∷ key false 32 32
    ∷ key false 32 32
    ∷ key true 32 32
    ∷ key false 32 32
    ∷ key false 32 32
    ∷ key false 32 32
    ∷ key false 32 32
    ∷ key false 32 32
    ∷ key false 32 32
    ∷ []

-- The other entries of a static table are 0.
abbrev pub nth_key : List AsciiCase → ℕ → AsciiCase
nth_key [] i = key false 0 0
nth_key (k ∷ ks) zero = k
nth_key (k ∷ ks) (suc i) = nth_key ks i

unfoldable pub scan_to_ascii : ℕ → AsciiCase
scan_to_ascii i = nth_key scan_table i

unfoldable pub is_usual_key : ℕ → Bool
is_usual_key scan_code = (scan_to_ascii (bit_and scan_code 0x7f)).is_valid

unfoldable pub should_enable_upper_case : KeyboardState → Bool
should_enable_upper_case s =
    if s.caps_pressed then not s.left_shift_pressed else s.left_shift_pressed

-- `on_usual_key_released` does nothing.
unfoldable pub on_usual_key_pressed : Keyboard → ℕ → Option Keyboard
on_usual_key_pressed k ascii_code = elim (putchar k.console ascii_code) [
  | none ↦ none
  | some console ↦ some (record k { console = console })
]

abbrev pub toggle_caps : Keyboard → Keyboard
toggle_caps k = record k { state = record (k.state) { caps_pressed = not k.state.caps_pressed } }

abbrev pub toggle_lshift : Keyboard → Keyboard
toggle_lshift k = record k {
  state = record (k.state) { left_shift_pressed = not k.state.left_shift_pressed };
}

-- The `char` that is passed to `putchar` is positive for every entry of the table.
unfoldable pub on_key : Keyboard → ℕ → Option Keyboard
on_key k scan_code =
    let stripped = bit_and scan_code 0x7f in
    let real_key =
      if should_enable_upper_case k.state
      then (scan_to_ascii stripped).caps_ascii_code
      else (scan_to_ascii stripped).normal_ascii_code in
    if not (bit_and scan_code 0x80 == 0)
    then (if is_usual_key scan_code
        then some k
        else (if stripped == key_lshift then some (toggle_lshift k) else some k))
    else (if is_usual_key scan_code
        then on_usual_key_pressed k real_key
        else (if stripped == key_backspace
            then some (record k { console = print_back k.console })
            else (if stripped == key_caps
                then some (toggle_caps k)
                else (if stripped == key_lshift then some (toggle_lshift k) else some k))))

-- The handler's address is the link editor's. The state, the ports and the table of interrupts.
unfoldable pub keyboard_init :
    KeyboardState → Ports → Array IdtDesc → ℕ → KeyboardState × Ports × Array IdtDesc
unfolding keyboard_state_init
keyboard_init state ports idt keyboard_interrupt_handler = (
  keyboard_state_init state,
  interrupt_enable ports keyboard_interrupt,
  set_idt idt keyboard_interrupt keyboard_interrupt_handler,
)

-- `status` and `data` are what ports 0x64 and 0x60 answer.
unfoldable pub on_keyboard : Keyboard → ℕ → ℕ → Option Keyboard
on_keyboard k status data_byte =
    let handled = if not (bit_and status 1 == 0) then on_key k data_byte else some k in
    elim handled [
      | none ↦ none
      | some k' ↦ some (record k' {
        console = record (k'.console) { ports = pic_send_eoi k'.console.ports keyboard_interrupt };
      })
    ]
