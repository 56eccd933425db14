-- ===== src/Tickets/Oversold.antt =====
-- A ticket that two sellers sell.
use weg_os.Base.{
  ℕ, zero, suc, ◌+◌, ◌-◌, ◌^◌, ◌<◌, ◌≡◌, refl, ap, ◌∙◌, arith, true, false, update, List, [], ◌∷◌,
  ◌++◌, length,
}
use weg_os.Tickets.{are_left}
use weg_os.Tickets.Race.{
  testing, taking, gone, Race, move_from, move, run, AreSellers, opening, AreGone,
}

-- Seller 0 goes round its loop n times.
abbrev rounds : ℕ → List ℕ
rounds zero = []
rounds (suc n) = 0 ∷ 0 ∷ 0 ∷ 0 ∷ rounds n

-- Sellers 0 and 1 are at each place of the loop together, once round.
abbrev together : List ℕ
together = 0 ∷ 1 ∷ 0 ∷ 1 ∷ 0 ∷ 1 ∷ 0 ∷ 1 ∷ []

run-append : (s t : List ℕ) (r : Race) → run (s ++ t) r ≡ run t (run s r)
run-append [] t r = refl
run-append (i ∷ s) t r = run-append s t (move r i)

AreSellers-append : (s t : List ℕ) → AreSellers s → AreSellers t → AreSellers (s ++ t)
AreSellers-append [] t hs ht = ht
AreSellers-append (i ∷ s) t (h, hs) ht = (h, AreSellers-append s t hs ht)

AreSellers-rounds : (n : ℕ) → AreSellers (rounds n)
AreSellers-rounds zero = tt
AreSellers-rounds (suc n) =
    (omega arith, (omega arith, (omega arith, (omega arith, AreSellers-rounds n))))

-- The three are about to test, with so many tickets left.
record AreTesting (n sold : ℕ) (r : Race) : Type 0 where
  left : r.ticket_num ≡ n
  count : length r.sales ≡ sold
  first : r.places 0 ≡ testing
  second : r.places 1 ≡ testing
  third : r.places 2 ≡ testing

move-testing :
    (r : Race) (i : ℕ)
    → r.places i ≡ testing
    → are_left r.ticket_num ≡ true
    → move r i ≡ record r { places = update r.places i taking }
unfolding move move_from
move-testing r i at more = ap (move_from r i) at ∙ rw more refl

move-leaves :
    (r : Race) (i : ℕ)
    → r.places i ≡ testing
    → are_left r.ticket_num ≡ false
    → move r i ≡ record r { places = update r.places i gone }
unfolding move move_from
move-leaves r i at none_left = ap (move_from r i) at ∙ rw none_left refl

round-AreTesting :
    (n sold : ℕ) (r : Race)
    → suc n < 2 ^ 31
    → AreTesting (suc n) sold r
    → AreTesting n (suc sold) (run (0 ∷ 0 ∷ 0 ∷ 0 ∷ []) r)
unfolding move move_from
round-AreTesting n sold r small t =
    let more : are_left r.ticket_num ≡ true = ground (arith, t.left) in
    rw (move-testing r 0 t.first more) (record {
      left = omega (arith, t.left);
      count = omega (arith, t.count);
      first = refl;
      second = t.second;
      third = t.third;
    })

rounds-AreTesting :
    (n sold : ℕ) (r : Race)
    → n < 2 ^ 31
    → AreTesting n sold r
    → AreTesting 0 (n + sold) (run (rounds n) r)
rounds-AreTesting zero sold r small t = record {
  left = t.left;
  count = omega (arith, t.count);
  first = t.first;
  second = t.second;
  third = t.third;
}
rounds-AreTesting (suc n) sold r small t =
    let same : n + suc sold ≡ suc n + sold = omega arith in
    rw (← same) (
      rounds-AreTesting n (suc sold) (run (0 ∷ 0 ∷ 0 ∷ 0 ∷ []) r) (omega arith)
        (round-AreTesting n sold r small t))

together-AreTesting :
    (tickets : ℕ)
    → 0 < tickets
    → tickets < 2 ^ 31
    → AreTesting (tickets - 1) 2 (run together (opening tickets))
unfolding move move_from
together-AreTesting tickets some_left small =
    let more : are_left tickets ≡ true = ground arith in
    rw more (record { left = omega arith; count = refl; first = refl; second = refl; third = refl })

leaving-AreGone :
    (sold : ℕ) (r : Race)
    → AreTesting 0 sold r
    → AreGone (run (0 ∷ 1 ∷ 2 ∷ []) r) × (length (run (0 ∷ 1 ∷ 2 ∷ []) r).sales ≡ sold)
leaving-AreGone sold r t =
    let none_left : are_left r.ticket_num ≡ false = ground (arith, t.left) in
    let r1 : Race = record r { places = update r.places 0 gone } in
    let r2 : Race = record r1 { places = update r1.places 1 gone } in
    rw
      (
        move-leaves r 0 t.first none_left,
        move-leaves r1 1 t.second none_left,
        move-leaves r2 2 t.third none_left,
      )
      ((refl, refl, refl), t.count)

-- The sellers can sell a ticket twice: from any positive number of tickets there is an order of the sellers'
-- steps in which all three leave after one sale more than there were tickets.
pub run-oversells :
    (tickets : ℕ)
    → 0 < tickets
    → tickets < 2 ^ 31
    → (schedule : List ℕ) × AreSellers schedule
      × AreGone (run schedule (opening tickets))
      × (length (run schedule (opening tickets)).sales ≡ tickets + 1)
run-oversells tickets some_left small =
    let r2 : Race = run together (opening tickets) in
    let sold_out : AreTesting 0 (tickets - 1 + 2) (run (rounds (tickets - 1)) r2) =
      rounds-AreTesting (tickets - 1) 2 r2 (omega arith)
        (together-AreTesting tickets some_left small) in
    let (all_gone, count) =
      leaving-AreGone (tickets - 1 + 2) (run (rounds (tickets - 1)) r2) sold_out in
    let steps : run (together ++ (rounds (tickets - 1) ++ (0 ∷ 1 ∷ 2 ∷ []))) (opening tickets)
        ≡ run (0 ∷ 1 ∷ 2 ∷ []) (run (rounds (tickets - 1)) r2) =
      run-append together (rounds (tickets - 1) ++ (0 ∷ 1 ∷ 2 ∷ [])) (opening tickets)
      ∙ run-append (rounds (tickets - 1)) (0 ∷ 1 ∷ 2 ∷ []) r2 in
    (
      together ++ (rounds (tickets - 1) ++ (0 ∷ 1 ∷ 2 ∷ [])),
      AreSellers-append together (rounds (tickets - 1) ++ (0 ∷ 1 ∷ 2 ∷ [])) (omega arith) (
          AreSellers-append (rounds (tickets - 1)) (0 ∷ 1 ∷ 2 ∷ [])
            (AreSellers-rounds (tickets - 1)) (omega arith)),
      rw steps all_gone,
      rw steps (count ∙ omega arith),
    )
