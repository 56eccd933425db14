-- ===== src/Console/Text.antt =====
-- Printing a string: `write` and `printf` of kernel/dev/console.c.
use weg_os.Base.{
  ℕ, suc, ◌+◌, ◌-◌, ◌*◌, ◌/◌, ◌%◌, ◌^◌, ◌≤◌, ◌<◌, ◌≡◌, ◌≢◌, refl, ap, ◌∙◌, arith, some, ◌==◌,
  ==_of_ne, leb, ltb, if◌then◌else◌, Array, update, List, [], ◌∷◌, length,
}
use native.Mathlib.Decide.{dec_lt, ℕ_discrete}
use weg_os.Console.{
  Console, rows, cols, set_cursor_state, cursor_state_inc, putchar, char_arg, print_loop, printf,
}
use weg_os.Console.Cursor.{
  cell, IsNearScreen, putchar-IsNearScreen, set_cursor_state-IsNearScreen, check_scroll_up-done,
}
use weg_os.Strings.Chars.{Spells, strlen-Spells}

-- Where the cursor is after a character, and after a string: behind the last row the screen has gone up.
abbrev pub next_cell : ℕ → ℕ → ℕ
next_cell at char =
    let next = if char == 10 then (at / cols + 1) * cols else at + 1 in
    if ltb (rows * cols) next then next - cols else next

abbrev pub cell_after : ℕ → List ℕ → ℕ
cell_after at [] = at
cell_after at (char ∷ chars) = cell_after (next_cell at char) chars

-- Characters of a byte, none of them a backspace.
abbrev pub ArePrintable : List ℕ → Type 0
ArePrintable [] = Unit {0}
ArePrintable (char ∷ chars) = (char < 2 ^ 8) × (char ≢ 8) × ArePrintable chars

print_loop-IsNearScreen :
    (i : ℕ) (buf : Array ℕ) (chars : List ℕ) (c : Console)
    → Spells buf i chars
    → ArePrintable chars
    → IsNearScreen c
    → (c' : Console) × (print_loop (length chars) i buf c ≡ some c')
      × IsNearScreen c'
      × (cell c' ≡ cell_after (cell c) chars)
unfolding print_loop
print_loop-IsNearScreen i buf [] c s ok on = (c, refl, on, refl)
print_loop-IsNearScreen i buf (char ∷ chars) c (at, ne, rest) (byte, printable, ok) on =
    let (c1, done, on1, cell1) =
      putchar-IsNearScreen c (char_arg char) on (λ e. ground (arith, e)) in
    let (c2, rest_done, on2, cell2) = print_loop-IsNearScreen (i + 1) buf chars c1 rest ok on1 in
    let moved : cell c1 ≡ next_cell (cell c) char = ground (arith, cell1) in
    (c2, rw (at, done) rest_done, on2, cell2 ∙ ap (λ (k : ℕ). cell_after k chars) moved)

-- With the cursor on the screen or in the cell behind its last one,
-- `printf` of any string of less than 2 ^ 31 bytes without a backspace
-- returns, keeps the cursor's invariant, and leaves the cursor where the characters lead it, one after
-- the other, with the rows that the screen has gone up.
pub printf-IsNearScreen :
    (c : Console) (fmt : Array ℕ) (chars : List ℕ)
    → Spells fmt 0 chars
    → length chars < 2 ^ 31
    → ArePrintable chars
    → IsNearScreen c
    → (c' : Console) × (printf c fmt ≡ some c')
      × IsNearScreen c'
      × (cell c' ≡ cell_after (cell c) chars)
unfolding printf
printf-IsNearScreen c fmt chars s small ok on =
    let (c', done, on', cell') = print_loop-IsNearScreen 0 fmt chars c s ok on in
    (c', rw (strlen-Spells fmt chars s small) done, on', cell')

-- A character on the screen proper: it is put where the cursor stands, which goes one cell on.
putchar-plain :
    (c : Console) (char : ℕ)
    → IsNearScreen c
    → char ≢ 8
    → char ≢ 10
    → cell c < rows * cols
    → (c' : Console) × (putchar c char ≡ some c')
      × (c'.memory ≡ update c.memory c.p_last_char (char % 2 ^ 8))
      × (c'.p_last_char ≡ c.p_last_char + 2)
      × IsNearScreen c'
unfolding putchar cursor_state_inc set_cursor_state
putchar-plain c char on back newline inside =
    let written : Console = record c { memory = update c.memory c.p_last_char (char % 2 ^ 8) } in
    let c' : Console = cursor_state_inc written in
    let next : (c.p_last_char + 2) % 2 ^ 32 ≡ c.p_last_char + 2 = omega (arith, on.high) in
    let run : putchar c char ≡ some c' =
      rw (==_of_ne _ _ newline, ==_of_ne _ _ back)
        (check_scroll_up-done c' (omega (arith, next, on.even, on.low))) in
    let on' : IsNearScreen (set_cursor_state written ((c.p_last_char + 2) % 2 ^ 32)) =
      set_cursor_state-IsNearScreen written ((c.p_last_char + 2) % 2 ^ 32)
        (omega (arith, next, on.low)) (omega (arith, next, on.even, on.low))
        (omega (arith, next, on.even)) in
    (c', run, refl, next, on')

-- Characters of a byte which stand for themselves on the screen.
abbrev pub ArePlain : List ℕ → Type 0
ArePlain [] = Unit {0}
ArePlain (char ∷ chars) = (char < 2 ^ 8) × (char ≢ 8) × (char ≢ 10) × ArePlain chars

-- Memory with so many characters of the text, from character i on, in every other byte from p on.
abbrev pub shown : Array ℕ → ℕ → ℕ → Array ℕ → ℕ → Array ℕ
shown memory p count fmt i a =
    if leb p a
    then (if ltb a (p + 2 * count)
        then (if (a - p) % 2 == 0 then fmt (i + (a - p) / 2) else memory a)
        else memory a)
    else memory a

-- The first character, and then the others.
shown-first :
    (memory m1 : Array ℕ) (p count : ℕ) (fmt : Array ℕ) (i a : ℕ)
    → m1 a ≡ (if p == a then fmt i else memory a)
    → shown m1 (p + 2) count fmt (i + 1) a ≡ shown memory p (suc count) fmt i a
shown-first memory m1 p count fmt i a here = elim (ℕ_discrete a p) [
  | yes at ↦ ground (arith, here, ap fmt (at_start at))
  | no other ↦ elim (dec_lt a (p + 2)) [
    | yes before ↦ ground (arith, here)
    | no behind ↦ ground (arith, here, ap fmt (index behind))
  ]
]
  where
    at_start : a ≡ p → i + (a - p) / 2 ≡ i
    at_start at = omega arith

    index : ¬ (a < p + 2) → i + 1 + (a - (p + 2)) / 2 ≡ i + (a - p) / 2
    index behind = omega arith

print_loop-shown :
    (i : ℕ) (buf : Array ℕ) (chars : List ℕ) (c : Console)
    → Spells buf i chars
    → ArePlain chars
    → IsNearScreen c
    → cell c + length chars ≤ rows * cols
    → (c' : Console) × (print_loop (length chars) i buf c ≡ some c')
      × IsNearScreen c'
      × (c'.p_last_char ≡ c.p_last_char + 2 * length chars)
      × ((a : ℕ) → c'.memory a ≡ shown c.memory c.p_last_char (length chars) buf i a)
unfolding print_loop
print_loop-shown i buf [] c s ok on room = (c, refl, on, omega arith, λ a. ground arith)
print_loop-shown i buf (char ∷ chars) c (at, ne, rest) (byte, back, newline, ok) on room =
    let (c1, done, memory1, next1, on1) =
      putchar-plain c (char_arg char) on (λ e. ground (arith, e)) (λ e. ground (arith, e))
        (omega arith) in
    let (c2, rest_done, on2, next2, memory2) =
      print_loop-shown (i + 1) buf chars c1 rest ok on1 (omega (arith, next1, on.low)) in
    let byte_put : char_arg char % 2 ^ 8 ≡ buf i = ground (arith, at) in
    let here : (a : ℕ) → c1.memory a ≡ (if c.p_last_char == a then buf i else c.memory a) =
      λ a. ap (λ m. m a) memory1 ∙ ap (λ (b : ℕ). update c.memory c.p_last_char b a) byte_put in
    (
      c2,
      rw (at, done) rest_done,
      on2,
      omega (arith, next2, next1),
      λ a.
          memory2 a
          ∙ ap (λ (p : ℕ). shown c1.memory p (length chars) buf (i + 1) a) next1
          ∙ shown-first c.memory c1.memory c.p_last_char (length chars) buf i a (here a),
    )

-- With the cursor on the screen or in the cell behind its last one,
-- `printf` of a string of bytes without newlines and backspaces that fits
-- between the cursor and the end of the screen puts its characters into the cells from the cursor on,
-- moves the cursor behind them, and changes no other byte of memory.
pub printf-shown :
    (c : Console) (fmt : Array ℕ) (chars : List ℕ)
    → Spells fmt 0 chars
    → ArePlain chars
    → IsNearScreen c
    → cell c + length chars ≤ rows * cols
    → (c' : Console) × (printf c fmt ≡ some c')
      × IsNearScreen c'
      × (cell c' ≡ cell c + length chars)
      × ((a : ℕ) → c'.memory a ≡ shown c.memory c.p_last_char (length chars) fmt 0 a)
unfolding printf
printf-shown c fmt chars s ok on room =
    let (c', done, on', next, memory) = print_loop-shown 0 fmt chars c s ok on room in
    (
      c',
      rw (strlen-Spells fmt chars s (omega arith)) done,
      on',
      omega (arith, next, on.low),
      memory,
    )
