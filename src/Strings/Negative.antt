-- ===== src/Strings/Negative.antt =====
-- `itoa` of negative numbers.
use weg_os.Base.{
  ℕ, ◌+◌, ◌-◌, ◌^◌, ◌≤◌, ◌<◌, ◌≡◌, refl, ap, ◌∙◌, arith, true, leb, Array, update, update_self,
  update_ne, some, ==_of_ne,
}
use weg_os.Strings.{digits_loop, itoa}
use weg_os.Strings.Numbers.{
  value_of, IsDigitChar, low_value, value_of-low_value, digits_loop-Digits, reversed_text, turned,
  reversed_text-behind,
}

-- For the bit pattern of a negative number other than the least and a radix from 2 to 36, `itoa` returns a
-- minus sign and behind it a text of at most 31 characters from '0' to 'z', which stands for the number
-- without its sign, with a 0 behind them; nothing behind the 0 is written.
pub itoa-negative :
    (buffer text : Array ℕ) (num radix : ℕ)
    → 2 ^ 31 < num
    → num < 2 ^ 32
    → 2 ≤ radix
    → radix ≤ 36
    → (n : ℕ) × (text' : Array ℕ) × (itoa buffer num radix text ≡ some text')
      × (text' 0 ≡ 45)
      × (value_of radix (λ j. text' (j + 1)) n ≡ 2 ^ 32 - num)
      × (text' (n + 1) ≡ 0)
      × ((j : ℕ) → j < n → IsDigitChar (text' (j + 1)))
      × (n ≤ 31)
      × ((j : ℕ) → n + 1 < j → text' j ≡ text j)
unfolding itoa
itoa-negative buffer text num radix low fits lo hi =
    let (n, b, done, bound, d) =
      digits_loop-Digits 31 (2 ^ 32 - num) radix 0 buffer lo hi (omega arith) in
    let whole : digits_loop 32 (2 ^ 32 - num) radix 0 buffer ≡ some (n, b) =
      done ∙ ap (λ (k : ℕ). some (k, b)) (omega arith) in
    let negative : leb (2 ^ 31) num ≡ true = ground arith in
    let signed : Array ℕ = update b n 45 in
    let text' : Array ℕ = reversed_text (n + 1) signed text in
    let digit : (j : ℕ) → j < n → text' (j + 1) ≡ b (n - 1 - j) = λ j h.
      turned (n + 1) signed text (j + 1) (omega arith)
      ∙ update_ne b n (n + 1 - 1 - (j + 1)) 45 (λ e. omega arith)
      ∙ ap b (omega arith) in
    (
      n,
      text',
      rw (==_of_ne num 0 (λ e. omega arith), negative, whole) refl,
      turned (n + 1) signed text 0 (omega arith) ∙ ap signed (omega arith) ∙ update_self b n 45,
      value_of-low_value radix n n b (λ j. text' (j + 1)) digit (omega arith)
          ∙ ap (λ (k : ℕ). low_value radix b k n) (omega arith)
          ∙ d.value,
      reversed_text-behind (n + 1) signed text (n + 1) (omega arith) ∙ ground arith,
      λ j h. omega (arith, d.digits (n - 1 - j) (omega arith) (omega arith), digit j h),
      bound,
      λ j h. reversed_text-behind (n + 1) signed text j (omega arith) ∙ ground arith,
    )
