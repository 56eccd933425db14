-- ===== src/Console.antt =====
-- kernel/dev/console.c, with include/comm/console.h: the text screen and its cursor.
-- `memory` is the bytes of memory by address, with the screen at 0xb8000: a cell is two bytes, of which
-- the lower is the character. A pointer is a 32-bit address.
pub mod Cursor
pub mod Outside
pub mod Text
use weg_os.Base.{
  ℕ, zero, suc, ◌+◌, ◌-◌, ◌*◌, ◌/◌, ◌%◌, ◌^◌, true, false, Option, none, some, ◌>>=◌, ◌==◌, leb,
  ltb, if◌then◌else◌, Array, update, bit_and, List, [], ◌∷◌,
}
use weg_os.Interrupt.{Ports, outb}
use weg_os.Strings.{strlen}

abbrev pub video_mem : ℕ
video_mem = 0xb8000

abbrev pub rows : ℕ
rows = 25

abbrev pub cols : ℕ
cols = 80

-- `current_cursor_state`, the memory and the ports.
pub record Console : Type 0 where
  pub p_last_char : ℕ
  pub cursor_col : ℕ
  pub cursor_row : ℕ
  pub memory : Array ℕ
  pub ports : Ports

-- The position is sent to the screen's controller in two bytes.
unfoldable pub gotoxy : Ports → ℕ → ℕ → Ports
gotoxy ports col row =
    let pos = (row * cols + col) % 2 ^ 16 in
    outb (outb (outb (outb ports 0x3d4 0xe) 0x3d5 (pos / 2 ^ 8)) 0x3d4 0xf) 0x3d5 (bit_and 0xff pos)

-- `p - (uint16_t *)VIDEO_MEM_TEXT_MODE_START` as a `uint32_t`: a difference of pointers counts cells and
-- has a sign.
abbrev pub cell_of : ℕ → ℕ
cell_of p = if leb video_mem p then (p - video_mem) / 2 else (2 ^ 32 - (video_mem - p) / 2)

unfoldable pub set_cursor_state : Console → ℕ → Console
unfolding gotoxy
set_cursor_state c p =
    let offset = cell_of p in
    let col = offset % cols % 2 ^ 8 in
    let row = offset / cols % 2 ^ 8 in
    record c { p_last_char = p; cursor_col = col; cursor_row = row; ports = gotoxy c.ports col row }

unfoldable pub cursor_state_init : Console → Console
unfolding set_cursor_state
cursor_state_init c = set_cursor_state c video_mem

unfoldable pub cursor_state_inc : Console → Console
unfolding set_cursor_state
cursor_state_inc c = set_cursor_state c ((c.p_last_char + 2) % 2 ^ 32)

-- The loop of `scroll_up` from cell i on: both bytes of a cell are copied from the row below.
pub scroll_loop : ℕ → ℕ → Array ℕ → Array ℕ
scroll_loop zero i memory = memory
scroll_loop (suc left) i memory =
    let p = video_mem + 2 * i in
    scroll_loop left (i + 1)
      (update (update memory p (memory (p + 2 * cols))) (p + 1) (memory (p + 1 + 2 * cols)))

unfoldable pub scroll_up : Console → Console
unfolding set_cursor_state
scroll_up c =
    set_cursor_state (record c { memory = scroll_loop (rows * cols) 0 c.memory })
      ((c.p_last_char + 2 ^ 32 - 2 * cols) % 2 ^ 32)

-- The loop of `check_scroll_up`. `none` is a loop with more rounds than it was given.
pub check_loop : ℕ → Console → Option Console
check_loop zero c = none
check_loop (suc rounds) c = elim (ltb (video_mem + 2 * rows * cols) c.p_last_char) [
  | true ↦ check_loop rounds (scroll_up c)
  | false ↦ some c
]

-- Each round takes a row off the address, so an address below 2 ^ 32 has far fewer than 2 ^ 26 rounds.
unfoldable pub check_scroll_up : Console → Option Console
check_scroll_up c = check_loop (2 ^ 26) c

unfoldable pub println : Console → Option Console
unfolding set_cursor_state check_scroll_up
println c =
    let row = (c.p_last_char + 2 ^ 32 - video_mem) % 2 ^ 32 / (2 * cols) in
    check_scroll_up (set_cursor_state c ((video_mem + 2 * ((row + 1) * cols)) % 2 ^ 32))

-- The cell before the cursor is blanked, also when the cursor stands at the start of the screen.
unfoldable pub print_back : Console → Console
unfolding set_cursor_state
print_back c =
    let c' = set_cursor_state c ((c.p_last_char + 2 ^ 32 - 2) % 2 ^ 32) in
    record c' { memory = update c'.memory c'.p_last_char 0x20 }

unfoldable pub putchar : Console → ℕ → Option Console
unfolding println print_back cursor_state_inc check_scroll_up
putchar c char =
    if char == 10
    then println c
    else (if char == 8
        then some (print_back c)
        else (let c' = record c { memory = update c.memory c.p_last_char (char % 2 ^ 8) } in
            check_scroll_up (cursor_state_inc c')))

-- The loop of `cls` from cell i on.
pub blank_loop : ℕ → ℕ → Array ℕ → Array ℕ
blank_loop zero i memory = memory
blank_loop (suc left) i memory = blank_loop left (i + 1) (update memory (video_mem + 2 * i) 0x20)

unfoldable pub cls : Console → Console
unfolding cursor_state_init
cls c = let c' = cursor_state_init c in record c' { memory = blank_loop (rows * cols) 0 c'.memory }

-- A `char` of the string as the `uint32_t` that `putchar` takes: it is signed.
abbrev pub char_arg : ℕ → ℕ
char_arg b = if ltb b (2 ^ 7) then b else (2 ^ 32 - 2 ^ 8 + b)

-- The loop of `write` from character i on.
pub print_loop : ℕ → ℕ → Array ℕ → Console → Option Console
print_loop zero i buf c = some c
print_loop (suc left) i buf c = do c' ← putchar c (char_arg (buf i)); print_loop left (i + 1) buf c'

unfoldable pub write : Console → Array ℕ → ℕ → Option Console
write c buf length = print_loop length 0 buf c

-- Only the format string is printed.
unfoldable pub printf : Console → Array ℕ → Option Console
unfolding write
printf c fmt = do length ← strlen fmt; write c fmt length

-- `emphasize` prints for ever; this is so many rounds of it.
pub emphasize : ℕ → Console → Array ℕ → Option Console
emphasize zero c text = some c
emphasize (suc rounds) c text = do c' ← printf c text; emphasize rounds c' text
