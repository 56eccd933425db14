-- ===== src/Tickets/Race.antt =====
-- The three sellers of kernel/init/main.c, interleaved by the timer. A seller tests `ticket_num`, and then
-- `ticket_num--` reads it and writes it back: the compiler makes an instruction of each, and the timer may
-- switch between any two. What is printed between is one step, which leaves `ticket_num` alone. `sales` is a
-- record of what happened, for the statements: which seller wrote `ticket_num` back, and what it had read.
use weg_os.Base.{
  ℕ, zero, suc, ◌+◌, ◌^◌, ◌≤◌, ◌<◌, ◌≡◌, ◌≢◌, ◌⊎◌, inl, inr, refl, sym, ◌∙◌, arith, false,
  if◌then◌else◌, Array, update, update_self, update_ne, List, [], ◌∷◌, length, Bool-cases,
}
use native.Mathlib.Decide.{ℕ_discrete}
use weg_os.Tickets.{are_left, one_less}

-- Where a seller is in its loop. In `putting` it holds what it has read.
pub data Place : Type 0 where
  testing taking telling gone : Place
  putting : ℕ → Place

pub record Race : Type 0 where
  pub ticket_num : ℕ
  pub places : Array Place
  pub sales : List (ℕ × ℕ)

unfoldable pub move_from : Race → ℕ → Place → Race
move_from r i testing = record r {
  places = update r.places i (if are_left r.ticket_num then taking else gone);
}
move_from r i taking = record r { places = update r.places i (putting r.ticket_num) }
move_from r i (putting n) = record r {
  ticket_num = one_less n;
  places = update r.places i telling;
  sales = (i, n) ∷ r.sales;
}
move_from r i telling = record r { places = update r.places i testing }
move_from r i gone = r

-- Seller i makes its next step.
unfoldable pub move : Race → ℕ → Race
unfolding move_from
move r i = move_from r i (r.places i)

-- The sellers' steps in the order of a schedule.
abbrev pub run : List ℕ → Race → Race
run [] r = r
run (i ∷ schedule) r = run schedule (move r i)

-- Each step is that of one of the three.
abbrev pub AreSellers : List ℕ → Type 0
AreSellers [] = Unit {0}
AreSellers (i ∷ schedule) = (i < 3) × AreSellers schedule

abbrev pub opening : ℕ → Race
opening tickets = record { ticket_num = tickets; places = λ i. testing; sales = [] }

abbrev pub AreGone : Race → Type 0
AreGone r = (r.places 0 ≡ gone) × (r.places 1 ≡ gone) × (r.places 2 ≡ gone)

-- The bit pattern of a number that with the number of sales is at least `tickets`.
abbrev Covers : ℕ → ℕ → ℕ → Type 0
Covers tickets sold n =
    ((n < 2 ^ 31) × (tickets ≤ n + sold))
    ⊎ ((2 ^ 31 < n) × (n < 2 ^ 32) × (2 ^ 32 + tickets ≤ n + sold))

Covers-more : (tickets sold n : ℕ) → Covers tickets sold n → Covers tickets (suc sold) n
Covers-more tickets sold n (inl (low, enough)) = inl (low, omega arith)
Covers-more tickets sold n (inr (high, fits, enough)) = inr (high, fits, omega arith)

Covers-one_less :
    (tickets sold n : ℕ)
    → sold + 1 < 2 ^ 31
    → Covers tickets sold n
    → Covers tickets (suc sold) (one_less n)
Covers-one_less tickets sold n few (inl (low, enough)) = elim (ℕ_discrete n 0) [
  | yes none_left ↦ inr (omega arith, omega arith, omega arith)
  | no some_left ↦ inl (omega arith, omega arith)
]
Covers-one_less tickets sold n few (inr (high, fits, enough)) =
    inr (omega arith, omega arith, omega arith)

-- `ticket_num` and what the sellers hold account for every ticket; when all are gone, none is left.
record Accounts (tickets : ℕ) (r : Race) : Type 0 where
  counter : Covers tickets (length r.sales) r.ticket_num
  held : (i n : ℕ) → r.places i ≡ putting n → Covers tickets (length r.sales) n
  settled : AreGone r → are_left r.ticket_num ≡ false

-- One of three that is somewhere else than `gone`.
not-AreGone : (r : Race) (i : ℕ) → i < 3 → r.places i ≢ gone → ¬ AreGone r
not-AreGone r zero h ne (a, b, c) = ne a
not-AreGone r (suc zero) h ne (a, b, c) = ne b
not-AreGone r (suc (suc zero)) h ne (a, b, c) = ne c
not-AreGone r (suc (suc (suc i))) h ne gone_all = absurd (omega arith)

update_at : (a : Array Place) (i j : ℕ) (p : Place) → i ≡ j → update a i p j ≡ p
update_at a i j p e = rw e (update_self a j p)

-- Seller i goes to a place where it holds nothing and is not gone, and sells nothing.
walk-Accounts :
    (tickets : ℕ) (r : Race) (i : ℕ) (p : Place)
    → i < 3
    → p ≢ gone
    → ((n : ℕ) → p ≡ putting n → Covers tickets (length r.sales) n)
    → Accounts tickets r
    → Accounts tickets (record r { places = update r.places i p })
walk-Accounts tickets r i p seller stays holds a = record {
  counter = a.counter;
  held = λ j n at. elim (ℕ_discrete i j) [
    | yes same ↦ holds n (sym (update_at r.places i j p same) ∙ at)
    | no other ↦ a.held j n (sym (update_ne r.places i j p other) ∙ at)
  ];
  settled = λ all_gone. absurd (
      not-AreGone (record r { places = update r.places i p }) i seller
        (λ e. stays (sym (update_self r.places i p) ∙ e)) all_gone);
}

move_from-Accounts :
    (tickets : ℕ) (r : Race) (i : ℕ) (p : Place)
    → i < 3
    → r.places i ≡ p
    → length r.sales + 1 < 2 ^ 31
    → Accounts tickets r
    → Accounts tickets (move_from r i p)
unfolding move_from
move_from-Accounts tickets r i testing seller at few a = elim (Bool-cases (are_left r.ticket_num)) [
  | inl more ↦ rw more (walk-Accounts tickets r i taking seller (λ e. cc) (λ n e. cc) a)
  | inr none_left ↦ rw none_left (record {
    counter = a.counter;
    held = λ j n at'. elim (ℕ_discrete i j) [
      | yes same ↦ let e : gone ≡ putting n = sym (update_at r.places i j gone same) ∙ at' in cc
      | no other ↦ a.held j n (sym (update_ne r.places i j gone other) ∙ at')
    ];
    settled = λ all_gone. none_left;
  })
]
move_from-Accounts tickets r i taking seller at few a =
    walk-Accounts tickets r i (putting r.ticket_num) seller (λ e. cc)
      (λ n e. let same : r.ticket_num ≡ n = cc in rw (← same) a.counter) a
move_from-Accounts tickets r i telling seller at few a =
    walk-Accounts tickets r i testing seller (λ e. cc) (λ n e. cc) a
move_from-Accounts tickets r i gone seller at few a = a
move_from-Accounts tickets r i (putting m) seller at few a =
    let sold : ℕ = length r.sales in
    record {
      counter = Covers-one_less tickets sold m few (a.held i m at);
      held = λ j n at'. elim (ℕ_discrete i j) [
        | yes same ↦
            let e : telling ≡ putting n = sym (update_at r.places i j telling same) ∙ at' in cc
        | no other ↦
            Covers-more tickets sold n
              (a.held j n (sym (update_ne r.places i j telling other) ∙ at'))
      ];
      settled = λ all_gone. absurd (
          not-AreGone (record r { places = update r.places i telling; sales = (i, m) ∷ r.sales }) i
            seller (λ e. let e' : telling ≡ gone = sym (update_self r.places i telling) ∙ e in cc)
            all_gone);
    }

move_from-sales :
    (r : Race) (i : ℕ) (p : Place) → length (move_from r i p).sales ≤ length r.sales + 1
unfolding move_from
move_from-sales r i testing = omega arith
move_from-sales r i taking = omega arith
move_from-sales r i telling = omega arith
move_from-sales r i gone = omega arith
move_from-sales r i (putting n) = omega arith

run-Accounts :
    (tickets : ℕ) (schedule : List ℕ) (r : Race)
    → AreSellers schedule
    → length r.sales + length schedule < 2 ^ 31
    → Accounts tickets r
    → Accounts tickets (run schedule r)
unfolding move
run-Accounts tickets [] r sellers few a = a
run-Accounts tickets (i ∷ schedule) r (seller, sellers) few a =
    run-Accounts tickets schedule (move r i) sellers
      (omega (arith, move_from-sales r i (r.places i)))
      (move_from-Accounts tickets r i (r.places i) seller refl (omega arith) a)

-- However the three are interleaved, in fewer than 2 ^ 31 steps, when all of them have left the loop there
-- have been at least as many sales as there were tickets, and `ticket_num` is not positive.
pub run-sells_all :
    (tickets : ℕ) (schedule : List ℕ)
    → tickets < 2 ^ 31
    → AreSellers schedule
    → length schedule < 2 ^ 31
    → AreGone (run schedule (opening tickets))
    → let r = run schedule (opening tickets) in
      (tickets ≤ length r.sales) × (are_left r.ticket_num ≡ false)
run-sells_all tickets schedule small sellers few all_gone =
    let start : Accounts tickets (opening tickets) = record {
      counter = inl (small, omega arith);
      held = λ i n e. cc;
      settled = λ h. let e : testing ≡ gone = h.0 in cc;
    } in
    let a : Accounts tickets (run schedule (opening tickets)) =
      run-Accounts tickets schedule (opening tickets) sellers (omega arith) start in
    (ground (arith, a.counter, a.settled all_gone), a.settled all_gone)
