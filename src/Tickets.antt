-- ===== src/Tickets.antt =====
-- The ticket sellers of kernel/init/main.c: `sell_ticket_A`, `sell_ticket_B` and `sell_ticket_C`, which share
-- `ticket_num`. They differ in the first character that they print. Here a seller runs alone; `Race` has
-- the three of them interleaved. `none` is a run that is not done within its fuel.
pub mod Alone
pub mod Oversold
pub mod Race
use weg_os.Base.{
  ℕ, zero, suc, ◌+◌, ◌-◌, ◌%◌, ◌^◌, Bool, ◌&&◌, ltb, if◌then◌else◌, Option, none, some, ◌>>=◌,
  Array, List, [], ◌∷◌,
}
use weg_os.Console.{Console, printf, println}
use weg_os.Fs.Files.{string}
use weg_os.Sched.{sys_exit}
use weg_os.Strings.{get_itoa}
use weg_os.Task.{Kernel}

-- `ticket_num > 0`, for the bit pattern of an `int32_t`.
abbrev pub are_left : ℕ → Bool
are_left ticket_num = ltb 0 ticket_num && ltb ticket_num (2 ^ 31)

-- `ticket_num--`
abbrev pub one_less : ℕ → ℕ
one_less ticket_num = (ticket_num + 2 ^ 32 - 1) % 2 ^ 32

-- `ticket_num`, the static `text` of `get_itoa`, and the console.
pub record Office : Type 0 where
  pub ticket_num : ℕ
  pub text : Array ℕ
  pub console : Console

-- " sold out a ticket,remaining tickets:" behind the seller's character.
abbrev pub announcement : ℕ → List ℕ
announcement seller =
    seller ∷ 32 ∷ 115 ∷ 111 ∷ 108 ∷ 100 ∷ 32 ∷ 111 ∷ 117 ∷ 116 ∷ 32 ∷ 97 ∷ 32 ∷ 116 ∷ 105 ∷ 99 ∷ 107
    ∷ 101 ∷ 116 ∷ 44 ∷ 114 ∷ 101 ∷ 109 ∷ 97 ∷ 105 ∷ 110 ∷ 105 ∷ 110 ∷ 103 ∷ 32 ∷ 116 ∷ 105 ∷ 99
    ∷ 107 ∷ 101 ∷ 116 ∷ 115 ∷ 58 ∷ []

-- The body of the loop, with what the buffer of `itoa` holds before.
unfoldable pub sell_one : ℕ → Array ℕ → Office → Option Office
sell_one seller buffer o = do
  let ticket_num = one_less o.ticket_num
  c1 ← printf o.console (string (announcement seller))
  text ← get_itoa buffer o.text ticket_num 10
  c2 ← printf c1 text
  c3 ← println c2
  some (record { ticket_num = ticket_num; text = text; console = c3 })

pub sell_loop : ℕ → ℕ → Array ℕ → Office → Option Office
sell_loop zero seller buffer o = none
sell_loop (suc rounds) seller buffer o =
    let rest = (sell_one seller buffer o) >>= sell_loop rounds seller buffer in
    if are_left o.ticket_num then rest else some o

-- An `int32_t` is positive for at most 2 ^ 31 - 1 rounds.
unfoldable pub sell_ticket : ℕ → Array ℕ → Office → Kernel → Option (Office × Kernel)
sell_ticket seller buffer o k = do
  o' ← sell_loop (2 ^ 31) seller buffer o
  k' ← sys_exit k 0
  some (o', k')

abbrev pub sell_ticket_a : Array ℕ → Office → Kernel → Option (Office × Kernel)
sell_ticket_a = sell_ticket 65

abbrev pub sell_ticket_b : Array ℕ → Office → Kernel → Option (Office × Kernel)
sell_ticket_b = sell_ticket 66

abbrev pub sell_ticket_c : Array ℕ → Office → Kernel → Option (Office × Kernel)
sell_ticket_c = sell_ticket 67
