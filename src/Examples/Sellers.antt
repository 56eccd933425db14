-- ===== src/Examples/Sellers.antt =====
-- The ticket sellers of kernel/init/main.c, and strings on the screen.
use weg_os.Base.{
  ℕ, ◌+◌, ◌*◌, ◌≤◌, ◌≡◌, refl, arith, false, some, ◌>>=◌, Array, List, [], ◌∷◌, length,
}
use weg_os.Console.{Console, video_mem, printf}
use weg_os.Console.Cursor.{cell, IsNearScreen}
use weg_os.Console.Text.{shown, printf-shown}
use weg_os.Examples.Kernels.{three_tasks}
use weg_os.Fs.Files.{string}
use weg_os.Sched.{sys_exit}
use weg_os.Strings.Chars.{Spells}
use weg_os.Tickets.{Office, are_left, sell_ticket}
use weg_os.Tickets.Alone.{sell_ticket-sells_out}
use weg_os.Tickets.Oversold.{run-oversells}
use weg_os.Tickets.Race.{AreGone, AreSellers, move, run, opening, run-sells_all}

abbrev zeros : Array ℕ
zeros i = 0

-- The cursor stands on the last cells of the screen but one.
abbrev console : Console
console = record {
  p_last_char = video_mem + 2 * 1998;
  cursor_col = 78;
  cursor_row = 24;
  memory = zeros;
  ports = record { inputs = zeros; outputs = [] };
}

console-IsNearScreen : IsNearScreen console
console-IsNearScreen = record {
  low = omega arith;
  high = omega arith;
  even = refl;
  row_is = refl;
  col_is = refl;
}

-- "ok"
abbrev ok_chars : List ℕ
ok_chars = 111 ∷ 107 ∷ []

ok-Spells : Spells (string ok_chars) 0 ok_chars
unfolding string
ok-Spells = omega arith

printf-shown_example :
    (c' : Console) × (printf console (string ok_chars) ≡ some c')
    × IsNearScreen c'
    × (cell c' ≡ 2000)
    × ((a : ℕ) → c'.memory a ≡ shown zeros (video_mem + 2 * 1998) 2 (string ok_chars) 0 a)
printf-shown_example =
    printf-shown console (string ok_chars) ok_chars ok-Spells (omega arith) console-IsNearScreen
      (omega arith)

abbrev office : Office
office = record { ticket_num = 12; text = zeros; console = console }

sell_ticket-sells_out_example :
    (o' : Office) × (sell_ticket 65 zeros office three_tasks
      ≡ (sys_exit three_tasks 0 >>= λ k'. some (o', k')))
    × (o'.ticket_num ≡ 0)
    × IsNearScreen o'.console
sell_ticket-sells_out_example =
    sell_ticket-sells_out 65 zeros office three_tasks (omega arith) (omega arith) (omega arith)
      console-IsNearScreen

-- One ticket; seller 0 sells it, and then all leave.
abbrev in_turn : List ℕ
in_turn = 0 ∷ 0 ∷ 0 ∷ 0 ∷ 0 ∷ 1 ∷ 2 ∷ []

in_turn-AreGone : AreGone (run in_turn (opening 1))
unfolding move
in_turn-AreGone = (refl, refl, refl)

run-sells_all_example :
    let r = run in_turn (opening 1) in (1 ≤ length r.sales) × (are_left r.ticket_num ≡ false)
run-sells_all_example =
    run-sells_all 1 in_turn (omega arith) (omega arith) (omega arith) in_turn-AreGone

run-oversells_example :
    (schedule : List ℕ) × AreSellers schedule
    × AreGone (run schedule (opening 2))
    × (length (run schedule (opening 2)).sales ≡ 3)
run-oversells_example = run-oversells 2 (omega arith) (omega arith)
