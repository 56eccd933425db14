-- ===== src/Tickets/Alone.antt =====
-- A seller that runs alone.
use weg_os.Base.{
  ℕ, zero, suc, ◌+◌, ◌-◌, ◌^◌, ◌≤◌, ◌<◌, ◌≡◌, ◌≢◌, refl, ap, ◌∙◌, arith, some, true, false, Array,
  List, [], ◌∷◌, length, ◌>>=◌, update,
}
use native.Mathlib.Decide.{ℕ_discrete}
use weg_os.Console.{putchar}
use weg_os.Console.Cursor.{IsNearScreen, putchar-IsNearScreen}
use weg_os.Console.Text.{ArePrintable, printf-IsNearScreen}
use weg_os.Fs.Files.{string}
use weg_os.Strings.{itoa, get_itoa}
use weg_os.Strings.Chars.{Spells}
use weg_os.Strings.Numbers.{IsDigitChar, itoa-value_of}
use weg_os.Sched.{sys_exit}
use weg_os.Task.{Kernel}
use weg_os.Tickets.{Office, are_left, one_less, announcement, sell_one, sell_loop, sell_ticket}

-- The n bytes of a text from the i-th on.
abbrev chars_of : Array ℕ → ℕ → ℕ → List ℕ
chars_of text i zero = []
chars_of text i (suc n) = text i ∷ chars_of text (i + 1) n

chars_of-Spells :
    (text : Array ℕ) (i n : ℕ)
    → ((j : ℕ) → i ≤ j → j < i + n → IsDigitChar (text j))
    → text (i + n) ≡ 0
    → Spells text i (chars_of text i n)
      × ArePrintable (chars_of text i n)
      × (length (chars_of text i n) ≡ n)
chars_of-Spells text i zero digits end = (ap text (omega arith) ∙ end, tt, refl)
chars_of-Spells text i (suc n) digits end =
    let (spelled, printable, count) =
      chars_of-Spells text (i + 1) n (λ j lo hi. digits j (omega arith) (omega arith))
        (ap text (omega arith) ∙ end) in
    let (low, high) = digits i (omega arith) (omega arith) in
    ((refl, (λ e. omega arith), spelled), (omega arith, (λ e. omega arith), printable), omega arith)

itoa-zero :
    (buffer : Array ℕ) (radix : ℕ) (text : Array ℕ)
    → itoa buffer 0 radix text ≡ some (update (update text 0 48) 1 0)
unfolding itoa
itoa-zero buffer radix text = refl

-- `get_itoa` of a number that is not negative returns a text that `printf` can print.
get_itoa-prints :
    (buffer text : Array ℕ) (num : ℕ)
    → num < 2 ^ 31
    → (text' : Array ℕ) × (chars : List ℕ) × (get_itoa buffer text num 10 ≡ some text')
      × Spells text' 0 chars
      × ArePrintable chars
      × (length chars ≤ 31)
unfolding get_itoa
get_itoa-prints buffer text num small = elim (ℕ_discrete num 0) [
  | yes none_left ↦ (
    update (update text 0 48) 1 0,
    48 ∷ [],
    zero_text none_left,
    omega arith,
    omega arith,
    omega arith,
  )
  | no some_left ↦
      let (n, text', run, _, end, digits, bound, _) =
        itoa-value_of buffer text num 10 (omega arith) small (omega arith) (omega arith) in
      let (spelled, printable, count) =
        chars_of-Spells text' 0 n (λ j lo hi. digits j (omega arith))
          (ap text' (omega arith) ∙ end) in
      (text', chars_of text' 0 n, run, spelled, printable, omega arith)
]
  where
    zero_text : num ≡ 0 → itoa buffer num 10 text ≡ some (update (update text 0 48) 1 0)
    zero_text e = rw e (itoa-zero buffer 10 text)

Spells-shift :
    (a b : Array ℕ) (i : ℕ) (cs : List ℕ)
    → ((j : ℕ) → i ≤ j → b (j + 1) ≡ a j)
    → Spells a i cs
    → Spells b (i + 1) cs
Spells-shift a b i [] shift end = shift i (omega arith) ∙ end
Spells-shift a b i (c ∷ cs) shift (at, ne, rest) = (
  shift i (omega arith) ∙ at,
  ne,
  Spells-shift a b (i + 1) cs (λ j h. shift j (omega arith)) rest,
)

-- Characters that are not the end of a string.
abbrev AreChars : List ℕ → Type 0
AreChars [] = Unit {0}
AreChars (c ∷ cs) = (c ≢ 0) × AreChars cs

string-Spells : (cs : List ℕ) → AreChars cs → Spells (string cs) 0 cs
unfolding string
string-Spells [] h = refl
string-Spells (c ∷ cs) (ne, h) = (
  refl,
  ne,
  Spells-shift (string cs) (string (c ∷ cs)) 0 cs
      (λ j low. let back : j + 1 - 1 ≡ j = omega arith in ground (arith, ap (string cs) back))
      (string-Spells cs h),
)

-- One ticket is sold, and the cursor stays on the screen or in the cell behind its last one.
sell_one-IsNearScreen :
    (seller : ℕ) (buffer : Array ℕ) (o : Office)
    → 8 < seller
    → seller < 2 ^ 8
    → 0 < o.ticket_num
    → o.ticket_num < 2 ^ 31
    → IsNearScreen o.console
    → (o' : Office) × (sell_one seller buffer o ≡ some o')
      × (o'.ticket_num + 1 ≡ o.ticket_num)
      × IsNearScreen o'.console
unfolding sell_one putchar
sell_one-IsNearScreen seller buffer o low high left small on =
    let (c1, said, on1, _) =
      printf-IsNearScreen o.console (string (announcement seller)) (announcement seller)
        (string-Spells (announcement seller) (omega arith)) (omega arith) (omega arith) on in
    let (text, chars, written, spelled, printable, short) =
      get_itoa-prints buffer o.text (one_less o.ticket_num) (omega arith) in
    let (c2, counted, on2, _) =
      printf-IsNearScreen c1 text chars spelled (omega arith) printable on1 in
    let (c3, ended, on3, _) = putchar-IsNearScreen c2 10 on2 (λ e. omega arith) in
    (
      record { ticket_num = one_less o.ticket_num; text = text; console = c3 },
      rw (said, written, counted, ended) refl,
      omega arith,
      on3,
    )

sell_loop-sells :
    (rounds seller : ℕ) (buffer : Array ℕ) (o : Office)
    → 8 < seller
    → seller < 2 ^ 8
    → o.ticket_num < rounds
    → o.ticket_num < 2 ^ 31
    → IsNearScreen o.console
    → (o' : Office) × (sell_loop rounds seller buffer o ≡ some o')
      × (o'.ticket_num ≡ 0)
      × IsNearScreen o'.console
unfolding sell_loop
sell_loop-sells zero seller buffer o low high fuel small on = absurd (omega arith)
sell_loop-sells (suc rounds) seller buffer o low high fuel small on =
    elim (ℕ_discrete o.ticket_num 0) [
      | yes sold_out ↦
          let stop : are_left o.ticket_num ≡ false = ground arith in (o, rw stop refl, sold_out, on)
      | no some_left ↦
          let more : are_left o.ticket_num ≡ true = ground arith in
          let (o1, sold, fewer, on1) =
            sell_one-IsNearScreen seller buffer o low high (omega arith) small on in
          let (o2, run, sold_out, on2) =
            sell_loop-sells rounds seller buffer o1 low high (omega arith) (omega arith) on1 in
          (o2, rw (more, sold) run, sold_out, on2)
    ]

-- A seller that runs alone, with a number of tickets that is not negative and the cursor on the screen or in
-- the cell behind its last one, comes to the end of its loop and calls `sys_exit`; no ticket is left
-- then, and the cursor is again on the screen or in the cell behind its last one.
pub sell_ticket-sells_out :
    (seller : ℕ) (buffer : Array ℕ) (o : Office) (k : Kernel)
    → 8 < seller
    → seller < 2 ^ 8
    → o.ticket_num < 2 ^ 31
    → IsNearScreen o.console
    → (o' : Office) × (sell_ticket seller buffer o k ≡ (sys_exit k 0 >>= λ k'. some (o', k')))
      × (o'.ticket_num ≡ 0)
      × IsNearScreen o'.console
unfolding sell_ticket
sell_ticket-sells_out seller buffer o k low high small on =
    let (o', run, sold_out, on') =
      sell_loop-sells (2 ^ 31) seller buffer o low high small small on in
    (o', rw run refl, sold_out, on')
