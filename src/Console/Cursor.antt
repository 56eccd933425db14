-- ===== src/Console/Cursor.antt =====
-- The cursor's invariant: its three fields agree, and it never leaves the 25 rows but for the cell
-- behind the last.
use weg_os.Base.{
  ℕ, zero, suc, ◌+◌, ◌-◌, ◌*◌, ◌/◌, ◌%◌, ◌^◌, ◌≤◌, ◌<◌, ◌≡◌, ◌≢◌, refl, ap, ◌∙◌, arith, true, false,
  some, ◌==◌, ltb, if◌then◌else◌, update, Bool-cases, ==_of_ne, inl, inr,
}
use weg_os.Console.{
  Console, video_mem, rows, cols, set_cursor_state, cursor_state_inc, scroll_loop, scroll_up,
  check_loop, check_scroll_up, println, print_back, putchar,
}

-- The cell that the cursor stands on.
abbrev pub cell : Console → ℕ
cell c = (c.p_last_char - video_mem) / 2

-- The cursor stands on a cell of the screen or on the one behind it, and its row and column are those
-- of the cell.
pub record IsNearScreen (c : Console) : Type 0 where
  pub low : video_mem ≤ c.p_last_char
  pub high : c.p_last_char ≤ video_mem + 2 * rows * cols
  pub even : c.p_last_char % 2 ≡ 0
  pub row_is : c.cursor_row ≡ cell c / cols
  pub col_is : c.cursor_col ≡ cell c % cols

pub set_cursor_state-IsNearScreen :
    (c : Console) (p : ℕ)
    → video_mem ≤ p
    → p ≤ video_mem + 2 * rows * cols
    → p % 2 ≡ 0
    → IsNearScreen (set_cursor_state c p)
unfolding set_cursor_state
set_cursor_state-IsNearScreen c p lo hi even = record {
  low = lo;
  high = hi;
  even = even;
  row_is = ground arith;
  col_is = ground arith;
}

scroll_up-p_last_char :
    (c : Console) → (scroll_up c).p_last_char ≡ (c.p_last_char + 2 ^ 32 - 2 * cols) % 2 ^ 32
unfolding scroll_up set_cursor_state
scroll_up-p_last_char c = refl

scroll_up-IsNearScreen :
    (c : Console)
    → video_mem + 2 * rows * cols < c.p_last_char
    → c.p_last_char ≤ video_mem + 2 * (rows + 1) * cols
    → c.p_last_char % 2 ≡ 0
    → IsNearScreen (scroll_up c) × ((scroll_up c).p_last_char ≡ c.p_last_char - 2 * cols)
unfolding scroll_up
scroll_up-IsNearScreen c lo hi even = (
  set_cursor_state-IsNearScreen (record c { memory = scroll_loop (rows * cols) 0 c.memory })
      ((c.p_last_char + 2 ^ 32 - 2 * cols) % 2 ^ 32) (omega arith) (omega arith) (omega arith),
  scroll_up-p_last_char c ∙ omega arith,
)

pub check_loop-next :
    (fuel : ℕ) (c : Console)
    → ltb (video_mem + 2 * rows * cols) c.p_last_char ≡ true
    → check_loop (suc fuel) c ≡ check_loop fuel (scroll_up c)
unfolding check_loop
check_loop-next fuel c e = rw (e, check_loop) refl

pub check_loop-stop :
    (fuel : ℕ) (c : Console)
    → ltb (video_mem + 2 * rows * cols) c.p_last_char ≡ false
    → check_loop (suc fuel) c ≡ some c
unfolding check_loop
check_loop-stop fuel c e = rw (e, check_loop) refl

-- On the screen, `check_scroll_up` changes nothing.
check_loop-done :
    (fuel : ℕ) (c : Console)
    → 1 ≤ fuel
    → c.p_last_char ≤ video_mem + 2 * rows * cols
    → check_loop fuel c ≡ some c
check_loop-done zero c some_left high = absurd (omega arith)
check_loop-done (suc fuel) c some_left high = check_loop-stop fuel c (ground (arith, high))

pub check_scroll_up-done :
    (c : Console) → c.p_last_char ≤ video_mem + 2 * rows * cols → check_scroll_up c ≡ some c
unfolding check_scroll_up
check_scroll_up-done c high = check_loop-done (2 ^ 26) c (omega arith) high

-- At most one row below the screen, one round of scrolling is enough.
check_loop-once :
    (fuel : ℕ) (c : Console)
    → 2 ≤ fuel
    → (c.p_last_char ≤ video_mem + 2 * rows * cols → IsNearScreen c)
    → video_mem ≤ c.p_last_char
    → c.p_last_char ≤ video_mem + 2 * (rows + 1) * cols
    → c.p_last_char % 2 ≡ 0
    → (c' : Console) × (check_loop fuel c ≡ some c')
      × IsNearScreen c'
      × (c'.p_last_char ≡ (
          if ltb (video_mem + 2 * rows * cols) c.p_last_char
          then c.p_last_char - 2 * cols
          else c.p_last_char))
check_loop-once zero c two stays lo hi even = absurd (omega arith)
check_loop-once (suc zero) c two stays lo hi even = absurd (omega arith)
check_loop-once (suc (suc rounds)) c two stays lo hi even =
    elim (Bool-cases (ltb (video_mem + 2 * rows * cols) c.p_last_char)) [
      | inl below ↦
          let (on, at) = scroll_up-IsNearScreen c (ground arith) hi even in
          let stop : ltb (video_mem + 2 * rows * cols) (scroll_up c).p_last_char ≡ false =
            ground (arith, on.high) in
          (
            scroll_up c,
            check_loop-next (suc rounds) c below ∙ check_loop-stop rounds (scroll_up c) stop,
            on,
            at ∙ rw below refl,
          )
      | inr above ↦ (c, check_loop-stop (suc rounds) c above, stays (ground arith), rw above refl)
    ]

check_scroll_up-once :
    (c : Console) (p : ℕ)
    → video_mem ≤ p
    → p ≤ video_mem + 2 * (rows + 1) * cols
    → p % 2 ≡ 0
    → (c' : Console) × (check_scroll_up (set_cursor_state c p) ≡ some c')
      × IsNearScreen c'
      × (c'.p_last_char ≡ (if ltb (video_mem + 2 * rows * cols) p then p - 2 * cols else p))
unfolding check_scroll_up set_cursor_state
check_scroll_up-once c p lo hi even =
    check_loop-once (2 ^ 26) (set_cursor_state c p) (omega arith)
      (λ h. set_cursor_state-IsNearScreen c p lo (unfold set_cursor_state in h) even)
      (unfold set_cursor_state in lo) (unfold set_cursor_state in hi)
      (unfold set_cursor_state in even)

-- With the cursor on the screen or in the cell behind its last one,
-- `putchar` of any character but a backspace returns, keeps the cursor's
-- invariant, and moves the cursor: a newline takes it to the start of the next row, another character
-- to the next cell; where that is more than one cell behind the screen, one row earlier.
pub putchar-IsNearScreen :
    (c : Console) (char : ℕ)
    → IsNearScreen c
    → char ≢ 8
    → let next = if char == 10 then (cell c / cols + 1) * cols else cell c + 1 in
      (c' : Console) × (putchar c char ≡ some c')
      × IsNearScreen c'
      × (cell c' ≡ (if ltb (rows * cols) next then next - cols else next))
unfolding putchar println cursor_state_inc
putchar-IsNearScreen c char v other = elim (Bool-cases (char == 10)) [
  | inl newline ↦
      let (c', done, on, at) =
        check_scroll_up-once c (video_mem + 2 * ((cell c / cols + 1) * cols)) (omega arith)
          (omega (arith, v.high)) (omega arith) in
      (
        c',
        rw newline (
            ap (λ (p : ℕ). check_scroll_up (set_cursor_state c p)) (omega (arith, v.low, v.high))
            ∙ done),
        on,
        rw newline (ground (arith, at)),
      )
  | inr char_ne ↦
      let (c', done, on, at) =
        check_scroll_up-once (record c { memory = update c.memory c.p_last_char (char % 2 ^ 8) })
          (c.p_last_char + 2) (omega (arith, v.low)) (omega (arith, v.high))
          (omega (arith, v.even)) in
      (
        c',
        rw (char_ne, ==_of_ne _ _ other)
            (ap
                (λ (p : ℕ). check_scroll_up (
                  set_cursor_state
                    (record c { memory = update c.memory c.p_last_char (char % 2 ^ 8) }) p))
                (omega (arith, v.high))
              ∙ done),
        on,
        rw char_ne (ground (arith, at, v.low, v.even)),
      )
]

pub print_back-IsNearScreen :
    (c : Console) → IsNearScreen c → 0 < cell c → IsNearScreen (print_back c)
unfolding print_back set_cursor_state
print_back-IsNearScreen c v behind = record {
  low = on.low;
  high = on.high;
  even = on.even;
  row_is = on.row_is;
  col_is = on.col_is;
}
  where
    on : IsNearScreen (set_cursor_state c ((c.p_last_char + 2 ^ 32 - 2) % 2 ^ 32))
    on =
        set_cursor_state-IsNearScreen c _ (omega (arith, v.low)) (omega (arith, v.high))
          (omega (arith, v.even))

-- Behind the first cell, `putchar` of a backspace keeps the cursor's invariant, takes the cursor one
-- cell back and blanks that cell, and no other byte of memory changes.
pub putchar-backspace :
    (c : Console)
    → IsNearScreen c
    → 0 < cell c
    → (c' : Console) × (putchar c 8 ≡ some c')
      × IsNearScreen c'
      × (cell c' + 1 ≡ cell c)
      × ((a : ℕ) → c'.memory a ≡ (if c'.p_last_char == a then 0x20 else c.memory a))
unfolding putchar print_back set_cursor_state
putchar-backspace c v behind = (
  print_back c,
  refl,
  print_back-IsNearScreen c v behind,
  omega (arith, v.even, v.high),
  λ a. refl,
)
