-- ===== src/Strings/Numbers.antt =====
-- `itoa`: the text of a number reads as the number.
use weg_os.Base.{
  ℕ, zero, suc, ◌+◌, ◌-◌, ◌*◌, ◌/◌, ◌%◌, ◌^◌, ◌≤◌, ◌<◌, ◌≡◌, refl, sym, ap, ap₂, ◌∙◌, arith, false,
  ◌==◌, leb, ltb, if◌then◌else◌, Array, update, update_self, update_ne, some, ==_of_ne,
}
use native.Mathlib.Decide.{dec_lt}
use native.Mathlib.Nat.{
  div-lt_iff_lt-mul, pow-suc, mul-le-mul_left, mod-lt, div-add-mod, add_comm, mul_comm,
}
use weg_os.Strings.Chars.{copy_bytes-bytes}
use weg_os.Strings.{copy_bytes, reverse_loop, reverse, digit_char, digits_loop, itoa}

-- Two bytes changed round.
swapped : ℕ → ℕ → Array ℕ → Array ℕ
swapped i j str = update (update str i (str j)) j (str i)

swapped-byte :
    (i j : ℕ) (str : Array ℕ) (k : ℕ)
    → swapped i j str k ≡ (if j == k then str i else (if i == k then str j else str k))
unfolding swapped
swapped-byte i j str k = ground arith

reverse_loop-next :
    (rounds start end : ℕ) (str : Array ℕ)
    → start < end
    → reverse_loop (suc rounds) start end str
      ≡ reverse_loop rounds (start + 1) (end - 1) (swapped start end str)
unfolding reverse_loop swapped
reverse_loop-next rounds start end str h = ground arith

reverse_loop-stop :
    (rounds start end : ℕ) (str : Array ℕ) → end ≤ start → reverse_loop rounds start end str ≡ str
unfolding reverse_loop
reverse_loop-stop zero start end str h = refl
reverse_loop-stop (suc rounds) start end str h = ground arith

reverse_loop-bytes :
    (rounds start end : ℕ) (str : Array ℕ) (j : ℕ)
    → end < start + 2 * rounds
    → reverse_loop rounds start end str j
      ≡ (if leb start j then (if leb j end then str (start + end - j) else str j) else str j)
reverse_loop-bytes zero start end str j fuel =
    ap (λ a. a j) (reverse_loop-stop zero start end str (omega arith)) ∙ ground arith
reverse_loop-bytes (suc rounds) start end str j fuel = elim (dec_lt start end) [
  | yes more ↦
      ap (λ a. a j) (reverse_loop-next rounds start end str more)
      ∙ reverse_loop-bytes rounds (start + 1) (end - 1) (swapped start end str) j (omega arith)
      ∙ after more
  | no stop ↦
      ap (λ a. a j) (reverse_loop-stop (suc rounds) start end str (omega arith)) ∙ ground arith
]
  where
    w : Array ℕ
    w = swapped start end str

    after :
        start < end
        → (if leb (start + 1) j
            then (if leb j (end - 1) then w (start + 1 + (end - 1) - j) else w j)
            else w j)
          ≡ (if leb start j then (if leb j end then str (start + end - j) else str j) else str j)
    after more =
        let same : start + 1 + (end - 1) - j ≡ start + end - j = omega arith in
        rw same (
          ground
            (arith, swapped-byte start end str j, swapped-byte start end str (start + end - j)))

-- `reverse` turns the first `length` bytes round, and leaves the others.
pub reverse-bytes :
    (str : Array ℕ) (n j : ℕ) → reverse str n j ≡ (if ltb j n then str (n - 1 - j) else str j)
unfolding reverse
reverse-bytes str zero j = unfold reverse_loop in ground arith
reverse-bytes str (suc n) j = ground (arith, reverse_loop-bytes (suc n) 0 n str j (omega arith))

-- The value of a digit, as a reader takes it.
abbrev digit_value : ℕ → ℕ
digit_value c = if leb 97 c then c - 97 + 10 else c - 48

digit_value-digit_char : (r : ℕ) → r < 36 → digit_value (digit_char r) ≡ r
digit_value-digit_char r h = ground arith

-- The characters from '0' to 'z', of which the digits are some.
abbrev pub IsDigitChar : ℕ → Type 0
IsDigitChar c = (48 ≤ c) × (c ≤ 122)

digit_char-IsDigitChar : (r : ℕ) → r < 36 → IsDigitChar (digit_char r)
digit_char-IsDigitChar r h = (ground arith, ground arith)

-- The number that n characters from i on stand for, the lowest digit first.
pub low_value : ℕ → Array ℕ → ℕ → ℕ → ℕ
low_value radix b i zero = 0
low_value radix b i (suc n) = digit_value (b i) + radix * low_value radix b (i + 1) n

-- The number that the first n characters of a text stand for, the highest digit first.
pub value_of : ℕ → Array ℕ → ℕ → ℕ
value_of radix text zero = 0
value_of radix text (suc n) = value_of radix text n * radix + digit_value (text n)

pub value_of-low_value :
    (radix n m : ℕ) (a b : Array ℕ)
    → ((j : ℕ) → j < n → b j ≡ a (n - 1 - j))
    → m ≤ n
    → value_of radix b m ≡ low_value radix a (n - m) m
unfolding value_of low_value
value_of-low_value radix n zero a b turned h = refl
value_of-low_value radix n (suc m) a b turned h =
    ap₂ (λ (x y : ℕ). x * radix + y) (value_of-low_value radix n m a b turned (omega arith))
      (ap digit_value (turned m (omega arith)) ∙ ap (λ (k : ℕ). digit_value (a k)) (omega arith))
    ∙ swap (low_value radix a (n - m) m)
    ∙ ap (λ (k : ℕ). digit_value (a (n - suc m)) + radix * low_value radix a k m) (omega arith)
  where
    swap :
        (x : ℕ) → x * radix + digit_value (a (n - suc m)) ≡ digit_value (a (n - suc m)) + radix * x
    swap x =
        add_comm (x * radix) _ ∙ ap (λ (y : ℕ). digit_value (a (n - suc m)) + y) (mul_comm x radix)

-- What the loop writes from i on.
pub record Digits (radix num i n : ℕ) (a b : Array ℕ) : Type 0 where
  pub value : low_value radix b i n ≡ num
  pub before : (j : ℕ) → j < i → b j ≡ a j
  pub digits : (j : ℕ) → i ≤ j → j < i + n → IsDigitChar (b j)

digits_loop-stop :
    (rounds num radix i : ℕ) (a : Array ℕ)
    → num ≡ 0
    → digits_loop (suc rounds) num radix i a ≡ some (i, a)
unfolding digits_loop
digits_loop-stop rounds num radix i a e = ground arith

digits_loop-next :
    (rounds num radix i : ℕ) (a : Array ℕ)
    → 0 < num
    → digits_loop (suc rounds) num radix i a
      ≡ digits_loop rounds (num / radix) radix (i + 1) (update a i (digit_char (num % radix)))
unfolding digits_loop
digits_loop-next rounds num radix i a more = ground arith

Digits-cons :
    (num radix i n : ℕ) (a b : Array ℕ)
    → 2 ≤ radix
    → radix ≤ 36
    → Digits radix (num / radix) (i + 1) n (update a i (digit_char (num % radix))) b
    → Digits radix num i (suc n) a b
unfolding low_value
Digits-cons num radix i n a b lo hi d = record {
  value =
      ap₂ (λ (x y : ℕ). digit_value x + radix * y) first d.value
      ∙ ap (λ (x : ℕ). x + radix * (num / radix)) (digit_value-digit_char (num % radix) small)
      ∙ omega (arith, div-add-mod num radix);
  before = λ j h. d.before j (omega arith) ∙ update_ne a i j _ (omega arith);
  digits = λ j lo' hi'. elim (dec_lt i j) [
    | yes later ↦ d.digits j (omega arith) (omega arith)
    | no here ↦
        let same : i ≡ j = omega arith in
        omega (arith, ap b same, first, digit_char-IsDigitChar (num % radix) small)
  ];
}
  where
    small : num % radix < 36
    small = omega (arith, mod-lt num {m = radix} (omega arith))

    first : b i ≡ digit_char (num % radix)
    first = d.before i (omega arith) ∙ update_self a i _

digits_loop-none :
    (rounds num radix i : ℕ) (a : Array ℕ)
    → num ≡ 0
    → (n : ℕ) × (b : Array ℕ) × (digits_loop (suc rounds) num radix i a ≡ some (i + n, b))
      × (n ≤ rounds)
      × Digits radix num i n a b
unfolding low_value
digits_loop-none rounds num radix i a e = (
  0,
  a,
  digits_loop-stop rounds num radix i a e ∙ ap (λ (k : ℕ). some (k, a)) (omega arith),
  omega arith,
  record { value = sym e; before = λ j h. refl; digits = λ j lo' hi'. absurd (omega arith) },
)

pub digits_loop-Digits :
    (rounds num radix i : ℕ) (a : Array ℕ)
    → 2 ≤ radix
    → radix ≤ 36
    → num < 2 ^ rounds
    → (n : ℕ) × (b : Array ℕ) × (digits_loop (suc rounds) num radix i a ≡ some (i + n, b))
      × (n ≤ rounds)
      × Digits radix num i n a b
digits_loop-Digits zero num radix i a lo hi small = digits_loop-none 0 num radix i a (omega arith)
digits_loop-Digits (suc r) num radix i a lo hi small = elim (dec_lt 0 num) [
  | no none_left ↦ digits_loop-none (suc r) num radix i a (omega arith)
  | yes more ↦
      let fits : num / radix < 2 ^ r =
        (div-lt_iff_lt-mul (omega arith)).1
          (omega (arith, pow-suc 2 r, mul-le-mul_left (2 ^ r) lo)) in
      let (n, b, done, bound, d) =
        digits_loop-Digits r (num / radix) radix (i + 1) (update a i (digit_char (num % radix))) lo
          hi fits in
      (
        suc n,
        b,
        digits_loop-next (suc r) num radix i a more
            ∙ done
            ∙ ap (λ (k : ℕ). some (k, b)) (omega arith),
        omega arith,
        Digits-cons num radix i n a b lo hi d,
      )
]

-- What `itoa` makes of n digits in the buffer.
abbrev pub reversed_text : ℕ → Array ℕ → Array ℕ → Array ℕ
reversed_text n b text = update (copy_bytes n 0 text (reverse (update b n 0) n)) n 0

pub turned : (n : ℕ) (b text : Array ℕ) (j : ℕ) → j < n → reversed_text n b text j ≡ b (n - 1 - j)
turned n b text j h = ground (
  arith,
  copy_bytes-bytes n 0 text (reverse (update b n 0) n) j,
  reverse-bytes (update b n 0) n j,
)

pub reversed_text-behind :
    (n : ℕ) (b text : Array ℕ) (j : ℕ)
    → n ≤ j
    → reversed_text n b text j ≡ (if n == j then 0 else text j)
reversed_text-behind n b text j h =
    ground (arith, copy_bytes-bytes n 0 text (reverse (update b n 0) n) j)

-- For a number that is neither 0 nor negative and a radix from 2 to 36, `itoa` returns a text of at most
-- 31 characters from '0' to 'z' with a 0 behind them, which stands for the number; nothing behind the 0 is
-- written.
pub itoa-value_of :
    (buffer text : Array ℕ) (num radix : ℕ)
    → 0 < num
    → num < 2 ^ 31
    → 2 ≤ radix
    → radix ≤ 36
    → (n : ℕ) × (text' : Array ℕ) × (itoa buffer num radix text ≡ some text')
      × (value_of radix text' n ≡ num)
      × (text' n ≡ 0)
      × ((j : ℕ) → j < n → IsDigitChar (text' j))
      × (n ≤ 31)
      × ((j : ℕ) → n < j → text' j ≡ text j)
unfolding itoa
itoa-value_of buffer text num radix pos small lo hi =
    let (n, b, done, bound, d) = digits_loop-Digits 31 num radix 0 buffer lo hi small in
    let whole : digits_loop 32 num radix 0 buffer ≡ some (n, b) =
      done ∙ ap (λ (k : ℕ). some (k, b)) (omega arith) in
    (
      n,
      reversed_text n b text,
      rw (==_of_ne num 0 (λ e. omega arith), positive, whole) refl,
      value_of-low_value radix n n b (reversed_text n b text) (turned n b text) (omega arith)
          ∙ ap (λ (k : ℕ). low_value radix b k n) (omega arith)
          ∙ d.value,
      reversed_text-behind n b text n (omega arith) ∙ ground arith,
      λ j h. omega (arith, d.digits (n - 1 - j) (omega arith) (omega arith), turned n b text j h),
      bound,
      λ j h. reversed_text-behind n b text j (omega arith) ∙ ground arith,
    )
  where
    positive : leb (2 ^ 31) num ≡ false
    positive = ground arith
