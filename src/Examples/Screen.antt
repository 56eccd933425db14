-- ===== src/Examples/Screen.antt =====
-- kernel/interrupt/interrupt.c, kernel/dev/console.c and kernel/dev/keyboard.c at concrete states.
use weg_os.Base.{ℕ, ◌+◌, ◌*◌, ◌≡◌, refl, arith, false, some, []}
use weg_os.Interrupt.{Ports}
use weg_os.Console.{Console, video_mem, putchar}
use weg_os.Console.Cursor.{cell, IsNearScreen, putchar-IsNearScreen}
use weg_os.Keyboard.{Keyboard, on_key}
use weg_os.Keyboard.Keys.{on_key-IsNearScreen}

abbrev ports : Ports
ports = record { inputs = λ i. 0; outputs = [] }

-- The cursor stands on the cell at the row and column.
abbrev at_cell : ℕ → ℕ → Console
at_cell row col = record {
  p_last_char = video_mem + 2 * (80 * row + col);
  cursor_col = col;
  cursor_row = row;
  memory = λ i. 0;
  ports = ports;
}

abbrev last_cell : Console
last_cell = at_cell 24 79

last_cell-IsNearScreen : IsNearScreen last_cell
last_cell-IsNearScreen = record {
  low = omega arith;
  high = omega arith;
  even = refl;
  row_is = refl;
  col_is = refl;
}

abbrev idle_keyboard : Keyboard
idle_keyboard = record {
  state = record {
    caps_pressed = false;
    left_shift_pressed = false;
    right_shift_pressed = false;
    ctrl_pressed = false;
    left_alt_pressed = false;
    right_alt_pressed = false;
  };
  console = last_cell;
}

on_key-IsNearScreen_example :
    (k' : Keyboard) × (on_key idle_keyboard 0x1e ≡ some k') × IsNearScreen k'.console
on_key-IsNearScreen_example =
    on_key-IsNearScreen idle_keyboard 0x1e last_cell-IsNearScreen (λ e. omega arith) (omega arith)

-- The letter `a`, shown as `A`.
shown : (c' : Console) × (putchar last_cell 65 ≡ some c') × IsNearScreen c' × (cell c' ≡ 2000)
shown = putchar-IsNearScreen last_cell 65 last_cell-IsNearScreen (λ e. omega arith)
