-- ===== src/Keyboard/Keys.antt =====
-- What a key does: the character it shows, the state it changes, and that the cursor stays in place.
use weg_os.Base.{
  ℕ, zero, suc, ◌+◌, ◌-◌, ◌/◌, ◌%◌, ◌^◌, ◌<◌, ◌≡◌, ◌≢◌, refl, sym, ap, ◌∙◌, subst, arith, Bool,
  true, false, not, ◌&&◌, ◌||◌, bit_and, ◌==◌, leb, ltb, if◌then◌else◌, some, ◌>>=◌, List, [], ◌∷◌,
  Bool-cases, inl, inr, ==_iff,
}
use weg_os.Base.Digits.{bit_and_ones, bit_and_high}
use weg_os.Console.{Console, putchar, print_back}
use weg_os.Console.Cursor.{IsNearScreen, cell, putchar-IsNearScreen, print_back-IsNearScreen}
use weg_os.Keyboard.{
  KeyboardState, AsciiCase, Keyboard, key_backspace, key_lshift, key_caps, scan_table, nth_key,
  scan_to_ascii, is_usual_key, should_enable_upper_case, on_usual_key_pressed, on_key, toggle_caps,
  toggle_lshift, key,
}

-- A test that holds of each entry of the table.
all_keys : (AsciiCase → Bool) → List AsciiCase → Bool
all_keys test [] = true
all_keys test (k ∷ ks) = test k && all_keys test ks

nth_key-all_keys :
    (test : AsciiCase → Bool) (ks : List AsciiCase) (i : ℕ)
    → test (key false 0 0) ≡ true
    → all_keys test ks ≡ true
    → test (nth_key ks i) ≡ true
unfolding all_keys
nth_key-all_keys test [] i outside h = outside
nth_key-all_keys test (k ∷ ks) zero outside h = ground arith
nth_key-all_keys test (k ∷ ks) (suc i) outside h = nth_key-all_keys test ks i outside (ground arith)

-- No key shows a backspace.
shows_no_backspace : AsciiCase → Bool
shows_no_backspace k = not (k.normal_ascii_code == 8) && not (k.caps_ascii_code == 8)

scan_to_ascii-shows_no_backspace : (i : ℕ) → shows_no_backspace (scan_to_ascii i) ≡ true
unfolding scan_to_ascii
scan_to_ascii-shows_no_backspace i =
    nth_key-all_keys shows_no_backspace scan_table i (unfold shows_no_backspace in refl)
      (unfold shows_no_backspace all_keys in refl)

-- A key is a letter when its usual code is one of a .. z.
abbrev pub is_letter : AsciiCase → Bool
is_letter k = k.is_valid && leb 97 k.normal_ascii_code && leb k.normal_ascii_code 122

letter_case : AsciiCase → Bool
letter_case k =
    not (is_letter k)
    || (k.caps_ascii_code == (if k.normal_ascii_code == 115 then 66 else k.normal_ascii_code - 32))

letter_case-upper_case :
    (k : AsciiCase)
    → letter_case k ≡ true
    → is_letter k ≡ true
    → k.caps_ascii_code ≡ (if k.normal_ascii_code == 115 then 66 else k.normal_ascii_code - 32)
unfolding letter_case
letter_case-upper_case k h letter = ground arith

scan_to_ascii-letter_case : (i : ℕ) → letter_case (scan_to_ascii i) ≡ true
unfolding scan_to_ascii
scan_to_ascii-letter_case i =
    nth_key-all_keys letter_case scan_table i (unfold letter_case in refl)
      (unfold letter_case all_keys in refl)

-- The upper case of each letter key is its capital, except that of `s`, where it is `B`.
pub scan_to_ascii-upper_case :
    (i : ℕ)
    → is_letter (scan_to_ascii i) ≡ true
    → let k = scan_to_ascii i in
      k.caps_ascii_code ≡ (if k.normal_ascii_code == 115 then 66 else k.normal_ascii_code - 32)
scan_to_ascii-upper_case i letter =
    letter_case-upper_case (scan_to_ascii i) (scan_to_ascii-letter_case i) letter

is_break :
    (scan_code : ℕ) → scan_code < 2 ^ 8 → (bit_and scan_code 0x80 == 0) ≡ ltb scan_code (2 ^ 7)
is_break scan_code byte =
    ground (arith, bit_and_high 7 scan_code 1, bit_and_ones 1 (scan_code / 2 ^ 7))

is_usual_key-make :
    (scan_code : ℕ) → is_usual_key scan_code ≡ (scan_to_ascii (scan_code % 2 ^ 7)).is_valid
unfolding is_usual_key
is_usual_key-make scan_code = ap (λ (c : ℕ). (scan_to_ascii c).is_valid) (bit_and_ones 7 scan_code)

-- The character of a key in the keyboard's case.
abbrev real_key : KeyboardState → ℕ → ℕ
real_key s i =
    if should_enable_upper_case s
    then (scan_to_ascii i).caps_ascii_code
    else (scan_to_ascii i).normal_ascii_code

on_key-usual_pressed :
    (k : Keyboard) (scan_code : ℕ)
    → scan_code < 2 ^ 7
    → is_usual_key scan_code ≡ true
    → on_key k scan_code ≡ on_usual_key_pressed k (real_key k.state scan_code)
unfolding on_key
on_key-usual_pressed k scan_code small usual =
    let low : bit_and scan_code 0x7f ≡ scan_code = bit_and_ones 7 scan_code ∙ omega arith in
    let make : (bit_and scan_code 0x80 == 0) ≡ true =
      is_break scan_code (omega arith) ∙ ground arith in
    rw (make, usual) (ap (λ (c : ℕ). on_usual_key_pressed k (real_key k.state c)) low)

on_key-usual_released :
    (k : Keyboard) (scan_code : ℕ)
    → scan_code < 2 ^ 7
    → is_usual_key scan_code ≡ true
    → on_key k (scan_code + 2 ^ 7) ≡ some k
unfolding on_key
on_key-usual_released k scan_code small usual =
    let break : (bit_and (scan_code + 2 ^ 7) 0x80 == 0) ≡ false =
      is_break (scan_code + 2 ^ 7) (omega arith) ∙ ground arith in
    let same : is_usual_key (scan_code + 2 ^ 7) ≡ true =
      is_usual_key-make (scan_code + 2 ^ 7)
      ∙ ap (λ (c : ℕ). (scan_to_ascii c).is_valid) (omega arith)
      ∙ sym (is_usual_key-make scan_code)
      ∙ usual in
    rw (break, same) refl

not-not : (b : Bool) → not (not b) ≡ b
not-not true = refl
not-not false = refl

on_key-lshift_pressed : (k : Keyboard) → on_key k key_lshift ≡ some (toggle_lshift k)
unfolding on_key is_usual_key scan_to_ascii
on_key-lshift_pressed k = refl

on_key-lshift_released : (k : Keyboard) → on_key k (key_lshift + 2 ^ 7) ≡ some (toggle_lshift k)
unfolding on_key is_usual_key scan_to_ascii
on_key-lshift_released k = refl

-- What the other keys do when they are pressed.
on_key-special_pressed :
    (k : Keyboard) (scan_code : ℕ)
    → scan_code < 2 ^ 7
    → is_usual_key scan_code ≡ false
    → on_key k scan_code ≡ (
        if scan_code == key_backspace
        then some (record k { console = print_back k.console })
        else (if scan_code == key_caps
            then some (toggle_caps k)
            else (if scan_code == key_lshift then some (toggle_lshift k) else some k)))
unfolding on_key
on_key-special_pressed k scan_code small usual =
    let low : bit_and scan_code 0x7f ≡ scan_code = bit_and_ones 7 scan_code ∙ omega arith in
    let make : (bit_and scan_code 0x80 == 0) ≡ true =
      is_break scan_code (omega arith) ∙ ground arith in
    rw (make, usual, low) refl

-- A key that is released shows nothing.
on_key-released_console :
    (k : Keyboard) (scan_code : ℕ)
    → scan_code < 2 ^ 8
    → ltb scan_code (2 ^ 7) ≡ false
    → (k' : Keyboard) × (on_key k scan_code ≡ some k') × (k'.console ≡ k.console)
unfolding on_key
on_key-released_console k scan_code byte high =
    let break : (bit_and scan_code 0x80 == 0) ≡ false = is_break scan_code byte ∙ high in
    elim (Bool-cases (is_usual_key scan_code)) [
      | inl usual ↦ (k, rw (break, usual) refl, refl)
      | inr special ↦ elim (Bool-cases (bit_and scan_code 0x7f == key_lshift)) [
        | inl shift ↦ (toggle_lshift k, rw (break, special, shift) refl, refl)
        | inr other ↦ (k, rw (break, special, other) refl, refl)
      ]
    ]

on_usual_key_pressed-shown :
    (k : Keyboard) (char : ℕ) (console : Console)
    → putchar k.console char ≡ some console
    → on_usual_key_pressed k char ≡ some (record k { console = console })
unfolding on_usual_key_pressed
on_usual_key_pressed-shown k char console e = rw (e, on_usual_key_pressed) refl

real_key-lshift :
    (k : Keyboard) (i : ℕ)
    → real_key (toggle_lshift k).state i ≡ (
        if should_enable_upper_case k.state
        then (scan_to_ascii i).normal_ascii_code
        else (scan_to_ascii i).caps_ascii_code)
unfolding should_enable_upper_case
real_key-lshift k i = ground arith

real_key-no_backspace : (s : KeyboardState) (i : ℕ) → real_key s i ≢ 8
unfolding shows_no_backspace
real_key-no_backspace s i = ground (arith, scan_to_ascii-shows_no_backspace i)

-- With the cursor on the screen or in the cell behind its last one, `on_key` of any scan code returns and keeps
-- the cursor there,
-- unless it is the backspace key and the cursor stands on the first cell.
pub on_key-IsNearScreen :
    (k : Keyboard) (scan_code : ℕ)
    → IsNearScreen k.console
    → (scan_code ≡ key_backspace → 0 < cell k.console)
    → scan_code < 2 ^ 8
    → (k' : Keyboard) × (on_key k scan_code ≡ some k') × IsNearScreen k'.console
on_key-IsNearScreen k scan_code v behind byte = elim (Bool-cases (ltb scan_code (2 ^ 7))) [
  | inl make ↦ pressed make
  | inr break ↦ released break
]
  where
    on_usual :
        (c : ℕ)
        → c ≢ 8
        → (k' : Keyboard) × (on_usual_key_pressed k c ≡ some k') × IsNearScreen k'.console
    on_usual c ne =
        let (console, done, on, _) = putchar-IsNearScreen k.console c v ne in
        (record k { console = console }, on_usual_key_pressed-shown k c console done, on)

    pressed :
        ltb scan_code (2 ^ 7) ≡ true
        → (k' : Keyboard) × (on_key k scan_code ≡ some k') × IsNearScreen k'.console
    pressed make = elim (Bool-cases (is_usual_key scan_code)) [
      | inl usual ↦
          rw (on_key-usual_pressed k scan_code (ground arith) usual)
            (on_usual (real_key k.state scan_code) (real_key-no_backspace k.state scan_code))
      | inr special ↦
          rw (on_key-special_pressed k scan_code (ground arith) special)
            (elim (Bool-cases (scan_code == key_backspace)) [
              | inl back ↦ (
                record k { console = print_back k.console },
                rw back refl,
                print_back-IsNearScreen k.console v (behind ((==_iff _ _).0 back)),
              )
              | inr b ↦ elim (Bool-cases (scan_code == key_caps)) [
                | inl caps ↦ (toggle_caps k, rw (b, caps) refl, v)
                | inr d ↦ elim (Bool-cases (scan_code == key_lshift)) [
                  | inl shift ↦ (toggle_lshift k, rw (b, d, shift) refl, v)
                  | inr e ↦ (k, rw (b, d, e) refl, v)
                ]
              ]
            ])
    ]

    released :
        ltb scan_code (2 ^ 7) ≡ false
        → (k' : Keyboard) × (on_key k scan_code ≡ some k') × IsNearScreen k'.console
    released break =
        let (k', done, same) = on_key-released_console k scan_code byte break in
        (k', done, subst IsNearScreen (sym same) v)

-- Shift pressed, a usual key pressed and released, and shift released: the screen shows the key's
-- character in the case that the keyboard did not have, and the keyboard's state is as it was.
pub on_key-shifted :
    (k : Keyboard) (scan_code : ℕ) (console : Console)
    → scan_code < 2 ^ 7
    → is_usual_key scan_code ≡ true
    → putchar k.console (
        if should_enable_upper_case k.state
        then (scan_to_ascii scan_code).normal_ascii_code
        else (scan_to_ascii scan_code).caps_ascii_code)
      ≡ some console
    → (do
      k1 ← on_key k key_lshift
      k2 ← on_key k1 scan_code
      k3 ← on_key k2 (scan_code + 2 ^ 7)
      on_key k3 (key_lshift + 2 ^ 7))
      ≡ some (record k { console = console })
on_key-shifted k scan_code console small usual shown =
    rw
      (
        on_key-lshift_pressed k,
        on_key-usual_pressed (toggle_lshift k) scan_code small usual,
        real_key-lshift k scan_code,
        on_usual_key_pressed-shown (toggle_lshift k) _ console shown,
        on_key-usual_released (record (toggle_lshift k) { console = console }) scan_code small
            usual,
        on_key-lshift_released (record (toggle_lshift k) { console = console }),
      )
      (ap
        (λ (b : Bool).
          some
            (record k { state = record (k.state) { left_shift_pressed = b }; console = console }))
        (not-not k.state.left_shift_pressed))
