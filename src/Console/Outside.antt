-- ===== src/Console/Outside.antt =====
-- What the console leaves alone: memory outside the screen, by every function that prints.
use weg_os.Base.{
  ℕ, zero, suc, ◌+◌, ◌-◌, ◌*◌, ◌/◌, ◌%◌, ◌^◌, ◌≤◌, ◌<◌, ◌≡◌, ◌≢◌, ◌⊎◌, inl, inr, refl, sym, ◌∙◌,
  arith, some, ◌==◌, ltb, Array, update, List, [], ◌∷◌, length, Bool-cases, ==_of_ne,
}
use weg_os.Console.{
  Console, video_mem, rows, cols, set_cursor_state, cursor_state_inc, cursor_state_init,
  scroll_loop, scroll_up, check_loop, check_scroll_up, println, putchar, char_arg, print_loop,
  printf, blank_loop, cls,
}
use weg_os.Console.Cursor.{
  cell, IsNearScreen, putchar-IsNearScreen, check_loop-next, check_loop-stop,
}
use weg_os.Console.Text.{ArePrintable}
use weg_os.Strings.Chars.{Spells, strlen-Spells}

-- The address lies neither on the screen nor in the cell behind it.
abbrev pub IsOutside : ℕ → Type 0
IsOutside a = (a < video_mem) ⊎ (video_mem + 2 * (rows * cols) + 2 ≤ a)

-- Memory changes on the screen only.
abbrev pub KeepsOutside : Array ℕ → Array ℕ → Type 0
KeepsOutside memory memory' = (a : ℕ) → IsOutside a → memory' a ≡ memory a

scroll_loop-outside :
    (left i : ℕ) (memory : Array ℕ)
    → i + left ≤ rows * cols
    → KeepsOutside memory (scroll_loop left i memory)
unfolding scroll_loop
scroll_loop-outside zero i memory h a out = refl
scroll_loop-outside (suc left) i memory h a out =
    let p : ℕ = video_mem + 2 * i in
    let m' = update (update memory p (memory (p + 2 * cols))) (p + 1) (memory (p + 1 + 2 * cols)) in
    scroll_loop-outside left (i + 1) m' (omega arith) a out ∙ ground (arith, out)

blank_loop-outside :
    (left i : ℕ) (memory : Array ℕ)
    → i + left ≤ rows * cols
    → KeepsOutside memory (blank_loop left i memory)
unfolding blank_loop
blank_loop-outside zero i memory h a out = refl
blank_loop-outside (suc left) i memory h a out =
    blank_loop-outside left (i + 1) (update memory (video_mem + 2 * i) 0x20) (omega arith) a out
    ∙ ground (arith, out)

scroll_up-outside : (c : Console) → KeepsOutside c.memory (scroll_up c).memory
unfolding scroll_up set_cursor_state
scroll_up-outside c a out = scroll_loop-outside (rows * cols) 0 c.memory (omega arith) a out

check_loop-outside :
    (fuel : ℕ) (c c' : Console) → check_loop fuel c ≡ some c' → KeepsOutside c.memory c'.memory
unfolding check_loop
check_loop-outside zero c c' run a out = cc
check_loop-outside (suc fuel) c c' run a out =
    elim (Bool-cases (ltb (video_mem + 2 * rows * cols) c.p_last_char)) [
      | inl below ↦
          check_loop-outside fuel (scroll_up c) c' (sym (check_loop-next fuel c below) ∙ run) a out
          ∙ scroll_up-outside c a out
      | inr above ↦ let same : some c ≡ some c' = sym (check_loop-stop fuel c above) ∙ run in cc
    ]

-- A character that is printed where the cursor stands.
putchar-outside :
    (c c' : Console) (char : ℕ)
    → IsNearScreen c
    → char ≢ 8
    → putchar c char ≡ some c'
    → KeepsOutside c.memory c'.memory
unfolding putchar println cursor_state_inc set_cursor_state check_scroll_up
putchar-outside c c' char on other run a out = elim (Bool-cases (char == 10)) [
  | inl newline ↦
      let row : ℕ = (c.p_last_char + 2 ^ 32 - video_mem) % 2 ^ 32 / (2 * cols) in
      let c1 : Console = set_cursor_state c ((video_mem + 2 * ((row + 1) * cols)) % 2 ^ 32) in
      let step : putchar c char ≡ check_loop (2 ^ 26) c1 = rw newline refl in
      check_loop-outside (2 ^ 26) c1 c' (sym step ∙ run) a out
  | inr char_ne ↦
      let c1 : Console =
        cursor_state_inc (record c { memory = update c.memory c.p_last_char (char % 2 ^ 8) }) in
      let step : putchar c char ≡ check_loop (2 ^ 26) c1 = rw (char_ne, ==_of_ne _ _ other) refl in
      check_loop-outside (2 ^ 26) c1 c' (sym step ∙ run) a out
      ∙ ground (arith, out, on.low, on.high)
]

print_loop-outside :
    (i : ℕ) (buf : Array ℕ) (chars : List ℕ) (c c' : Console)
    → Spells buf i chars
    → ArePrintable chars
    → IsNearScreen c
    → print_loop (length chars) i buf c ≡ some c'
    → KeepsOutside c.memory c'.memory
unfolding print_loop
print_loop-outside i buf [] c c' s ok on run a out = cc
print_loop-outside i buf (char ∷ chars) c c' (at, ne, rest) (byte, printable, ok) on run a out =
    let other : char_arg char ≢ 8 = λ e. ground (arith, e) in
    let (c1, done, on1, cell1) = putchar-IsNearScreen c (char_arg char) on other in
    let step : print_loop (length (char ∷ chars)) i buf c
        ≡ print_loop (length chars) (i + 1) buf c1 =
      rw (at, done) refl in
    print_loop-outside (i + 1) buf chars c1 c' rest ok on1 (sym step ∙ run) a out
    ∙ putchar-outside c c1 (char_arg char) on other done a out

-- With the cursor on the screen or in the cell behind its last one,
-- `printf` of a string without a backspace changes no byte of memory that
-- lies neither on the screen nor in the cell behind it.
pub printf-outside :
    (c c' : Console) (fmt : Array ℕ) (chars : List ℕ)
    → Spells fmt 0 chars
    → length chars < 2 ^ 31
    → ArePrintable chars
    → IsNearScreen c
    → printf c fmt ≡ some c'
    → KeepsOutside c.memory c'.memory
unfolding printf
printf-outside c c' fmt chars s small ok on run =
    let step : printf c fmt ≡ print_loop (length chars) 0 fmt c =
      rw (strlen-Spells fmt chars s small) refl in
    print_loop-outside 0 fmt chars c c' s ok on (sym step ∙ run)

-- `cls` takes the cursor to the first cell, whatever it was, and writes on the screen only.
pub cls-IsNearScreen :
    (c : Console) → IsNearScreen (cls c) × (cell (cls c) ≡ 0) × KeepsOutside c.memory (cls c).memory
unfolding cls cursor_state_init set_cursor_state
cls-IsNearScreen c = (
  record { low = omega arith; high = omega arith; even = refl; row_is = refl; col_is = refl },
  refl,
  blank_loop-outside (rows * cols) 0 c.memory (omega arith),
)
