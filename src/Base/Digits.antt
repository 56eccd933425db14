-- ===== src/Base/Digits.antt =====
-- The binary digits of a number, and what `&`, `|` and the masks of C do to each digit.
-- The library states the bit operations as a recursion on digits with fuel; `*_step` drops the fuel.
use Prim.Native.Nat.{
  ℕ, zero, suc, ◌+◌, ◌-◌, ◌*◌, ◌/◌, ◌%◌, ◌^◌, ◌≤◌, ◌<◌, min, max, bit_and, bit_or, digits, bitwise,
  bit_and-bitwise, bit_or-bitwise,
}
use Prim.Native.Nat.add
use mathlib.Core.Path.{◌≡◌, refl, sym, ap, ◌∙◌}
use native.Mathlib.Omega.{arith}
use native.Mathlib.Nat.{
  pow-suc, one-le-pow, pow-le-pow_right, mod-lt, mod-eq_of_lt, mul-add-mod_self_right, div-add-mod',
  div-div-eq-div-mul, pow-succ',
}
use weg_os.Base.Tests.{◌==◌, if◌then◌else◌}

module _ (z : ℕ → ℕ) (f : ℕ → ℕ → ℕ) where
  digits_stable : (n m a b : ℕ) → a ≤ n → a ≤ m → digits z f n a b ≡ digits z f m a b
  digits_stable zero zero a b p q = refl
  digits_stable zero (suc m) zero b p q = refl
  digits_stable zero (suc m) (suc a) b p q = absurd (omega arith)
  digits_stable (suc n) zero zero b p q = refl
  digits_stable (suc n) zero (suc a) b p q = absurd (omega arith)
  digits_stable (suc n) (suc m) zero b p q = refl
  digits_stable (suc n) (suc m) (suc a) b p q =
      let fewer = digits_stable n m (suc a / 2) (b / 2) (omega arith) (omega arith) in
      ap (λ (t : ℕ). t * 2 + f (suc a % 2) (b % 2)) fewer

  bitwise_step :
      (a b : ℕ)
      → bitwise z f (suc a) b ≡ bitwise z f (suc a / 2) (b / 2) * 2 + f (suc a % 2) (b % 2)
  bitwise_step a b =
      let fewer = digits_stable a (suc a / 2) (suc a / 2) (b / 2) (omega arith) (omega arith) in
      ap (λ (t : ℕ). t * 2 + f (suc a % 2) (b % 2)) fewer

pub bit_and_step : (a b : ℕ) → bit_and a b ≡ bit_and (a / 2) (b / 2) * 2 + min (a % 2) (b % 2)
bit_and_step zero b = rw (bit_and-bitwise, bit_and-bitwise) (omega arith)
bit_and_step (suc a) b = rw (bit_and-bitwise, bit_and-bitwise) (bitwise_step (λ y. 0) min a b)

pub bit_or_step : (a b : ℕ) → bit_or a b ≡ bit_or (a / 2) (b / 2) * 2 + max (a % 2) (b % 2)
bit_or_step zero b = rw (bit_or-bitwise, bit_or-bitwise) (omega arith)
bit_or_step (suc a) b = rw (bit_or-bitwise, bit_or-bitwise) (bitwise_step (λ y. y) max a b)

-- The digit of weight 2 ^ i.
abbrev pub digit : ℕ → ℕ → ℕ
digit zero x = x % 2
digit (suc i) x = digit i (x / 2)

pub digit-lt : (i x : ℕ) → digit i x < 2
digit-lt zero x = omega arith
digit-lt (suc i) x = digit-lt i (x / 2)

pub digit-bit_and : (i a b : ℕ) → digit i (bit_and a b) ≡ min (digit i a) (digit i b)
digit-bit_and zero a b = omega (arith, bit_and_step a b)
digit-bit_and (suc i) a b =
    let half : bit_and a b / 2 ≡ bit_and (a / 2) (b / 2) = omega (arith, bit_and_step a b) in
    rw half (digit-bit_and i (a / 2) (b / 2))

pub digit-bit_or : (i a b : ℕ) → digit i (bit_or a b) ≡ max (digit i a) (digit i b)
digit-bit_or zero a b = omega (arith, bit_or_step a b)
digit-bit_or (suc i) a b =
    let half : bit_or a b / 2 ≡ bit_or (a / 2) (b / 2) = omega (arith, bit_or_step a b) in
    rw half (digit-bit_or i (a / 2) (b / 2))

pub digit-zero : (i : ℕ) → digit i 0 ≡ 0
digit-zero zero = refl
digit-zero (suc i) = digit-zero i

-- `1 << i` has the digit of weight 2 ^ i, and no other.
pub digit-pow : (i j : ℕ) → digit j (2 ^ i) ≡ (if i == j then 1 else 0)
digit-pow zero zero = refl
digit-pow zero (suc j) = ground (arith, digit-zero j)
digit-pow (suc i) zero = ground (arith, pow-suc 2 i)
digit-pow (suc i) (suc j) =
    let half : 2 ^ suc i / 2 ≡ 2 ^ i = omega (arith, pow-suc 2 i) in
    rw half (ground (arith, digit-pow i j))

pub two-pow-lt : {k w : ℕ} → k < w → 2 ^ k < 2 ^ w
two-pow-lt {k} {w} h =
    let step : 2 ^ suc k ≤ 2 ^ w = pow-le-pow_right (omega arith) h in
    omega (arith, pow-suc 2 k, one-le-pow k 2 (omega arith), step)

-- `~y` over w bits turns each digit.
pub digit-complement : (w j y : ℕ) → y < 2 ^ w → j < w → digit j (2 ^ w - 1 - y) ≡ 1 - digit j y
digit-complement zero j y fits below = absurd (omega arith)
digit-complement (suc w) zero y fits below = omega (arith, pow-suc 2 w, one-le-pow w 2)
digit-complement (suc w) (suc j) y fits below =
    let half : (2 ^ suc w - 1 - y) / 2 ≡ 2 ^ w - 1 - y / 2 =
      omega (arith, pow-suc 2 w, one-le-pow w 2) in
    rw half (digit-complement w j (y / 2) (omega (arith, pow-suc 2 w)) (omega arith))

-- Numbers of w bits with the same digits are the same.
pub digit_ext :
    (w a b : ℕ) → a < 2 ^ w → b < 2 ^ w → ((i : ℕ) → i < w → digit i a ≡ digit i b) → a ≡ b
digit_ext zero a b ha hb h = omega arith
digit_ext (suc w) a b ha hb h = omega (
  arith,
  h 0 (omega arith),
  digit_ext w (a / 2) (b / 2) (omega (arith, pow-suc 2 w)) (omega (arith, pow-suc 2 w))
      (λ i p. h (suc i) (omega arith)),
)

bit_and-zero : (x : ℕ) → bit_and x 0 ≡ 0
bit_and-zero x = bounded x x (omega arith)
  where
    bounded : (n y : ℕ) → y ≤ n → bit_and y 0 ≡ 0
    bounded n zero h = refl
    bounded zero (suc y) h = absurd (omega arith)
    bounded (suc n) (suc y) h =
        omega (arith, bit_and_step (suc y) 0, bounded n (suc y / 2) (omega arith))

-- A remainder by twice `p`, from its lowest digit and the remainder of the half.
mod_double : (x p : ℕ) → 0 < p → x % (p * 2) ≡ x / 2 % p * 2 + x % 2
mod_double x p h =
    ap (λ (t : ℕ). t % (p * 2)) whole
    ∙ mul-add-mod_self_right (x / 2 / p) (p * 2) rest
    ∙ mod-eq_of_lt (omega (arith, mod-lt (x / 2) h))
  where
    rest : ℕ
    rest = x / 2 % p * 2 + x % 2

    whole : x ≡ x / 2 / p * (p * 2) + rest
    whole = omega (arith, div-add-mod' (x / 2) p)

-- `&` with k ones is the remainder by 2 ^ k.
pub bit_and_ones : (k x : ℕ) → bit_and x (2 ^ k - 1) ≡ x % 2 ^ k
bit_and_ones zero x = omega (arith, bit_and-zero x)
bit_and_ones (suc k) x = rw pow-suc (
    omega (
      arith,
      bit_and_step x (2 ^ k * 2 - 1),
      ap (bit_and (x / 2)) halved,
      bit_and_ones k (x / 2),
      mod_double x (2 ^ k) (one-le-pow k 2 (omega arith)),
      one-le-pow k 2 (omega arith),
    ))
  where
    halved : (2 ^ k * 2 - 1) / 2 ≡ 2 ^ k - 1
    halved = omega (arith, one-le-pow k 2)

-- The low n bits keep their digits.
pub digit-mod : (n k x : ℕ) → k < n → digit k (x % 2 ^ n) ≡ digit k x
digit-mod zero k x h = absurd (omega arith)
digit-mod (suc n) zero x h =
    rw pow-suc (omega (arith, mod_double x (2 ^ n) (one-le-pow n 2 (omega arith))))
digit-mod (suc n) (suc k) x h = rw half (digit-mod n k (x / 2) (omega arith))
  where
    half : x % 2 ^ suc n / 2 ≡ x / 2 % 2 ^ n
    half = rw pow-suc (omega (arith, mod_double x (2 ^ n) (one-le-pow n 2 (omega arith))))

pub digit-div : (m k x : ℕ) → digit k (x / 2 ^ m) ≡ digit (m + k) x
digit-div zero k x = rw add.zero (ap (digit k) (omega arith))
digit-div (suc m) k x = rw (add.suc, ← halved) (digit-div m k (x / 2))
  where
    halved : x / 2 / 2 ^ m ≡ x / 2 ^ suc m
    halved = div-div-eq-div-mul x 2 (2 ^ m) ∙ ap (λ (t : ℕ). x / t) (sym (pow-succ' 2 m))

pub bit_or-lt : (w a b : ℕ) → a < 2 ^ w → b < 2 ^ w → bit_or a b < 2 ^ w
bit_or-lt zero a b ha hb =
    let e : a ≡ 0 = omega arith in let f : b ≡ 0 = omega arith in rw (e, f) (omega arith)
bit_or-lt (suc w) a b ha hb = omega (
  arith,
  bit_or_step a b,
  pow-suc 2 w,
  bit_or-lt w (a / 2) (b / 2) (omega (arith, pow-suc 2 w)) (omega (arith, pow-suc 2 w)),
)

pub bit_and-lt : (w a b : ℕ) → a < 2 ^ w → bit_and a b < 2 ^ w
bit_and-lt zero a b ha = let e : a ≡ 0 = omega arith in rw e (omega (arith, bit_and-bitwise 0 b))
bit_and-lt (suc w) a b ha = omega (
  arith,
  bit_and_step a b,
  pow-suc 2 w,
  bit_and-lt w (a / 2) (b / 2) (omega (arith, pow-suc 2 w)),
)

bit_or-zero : (x : ℕ) → bit_or x 0 ≡ x
bit_or-zero x = bounded x x (omega arith)
  where
    bounded : (n y : ℕ) → y ≤ n → bit_or y 0 ≡ y
    bounded n zero h = refl
    bounded zero (suc y) h = absurd (omega arith)
    bounded (suc n) (suc y) h =
        omega (arith, bit_or_step (suc y) 0, bounded n (suc y / 2) (omega arith))

-- `|` of a multiple of 2 ^ k and a number below it is their sum.
pub bit_or_fields : (k q r : ℕ) → r < 2 ^ k → bit_or (q * 2 ^ k) r ≡ q * 2 ^ k + r
bit_or_fields zero q r h = let e : r ≡ 0 = omega arith in rw e (omega (arith, bit_or-zero (q * 1)))
bit_or_fields (suc k) q r h =
    let half : q * 2 ^ suc k / 2 ≡ q * 2 ^ k = omega (arith, doubled) in
    omega (
      arith,
      bit_or_step (q * 2 ^ suc k) r,
      ap (λ (t : ℕ). bit_or t (r / 2)) half,
      bit_or_fields k q (r / 2) (omega (arith, pow-suc 2 k)),
      doubled,
    )
  where
    doubled : q * 2 ^ suc k ≡ 2 * (q * 2 ^ k)
    doubled = omega (arith, ap (λ (t : ℕ). q * t) (pow-suc 2 k))

-- `&` with a mask of high bits acts on the quotient.
pub bit_and_high : (k x c : ℕ) → bit_and x (c * 2 ^ k) ≡ bit_and (x / 2 ^ k) c * 2 ^ k
bit_and_high zero x c =
    let same : c * 2 ^ 0 ≡ c = omega arith in
    let whole : x / 2 ^ 0 ≡ x = omega arith in rw (same, whole) (omega arith)
bit_and_high (suc k) x c =
    let half : c * 2 ^ suc k / 2 ≡ c * 2 ^ k = omega (arith, doubled) in
    let quot : x / 2 / 2 ^ k ≡ x / 2 ^ suc k =
      div-div-eq-div-mul x 2 (2 ^ k) ∙ ap (λ (t : ℕ). x / t) (sym (pow-succ' 2 k)) in
    omega (
      arith,
      bit_and_step x (c * 2 ^ suc k),
      ap (bit_and (x / 2)) half,
      bit_and_high k (x / 2) c,
      ap (λ (t : ℕ). bit_and t c * 2 ^ k) quot,
      doubled,
      ap (λ (t : ℕ). bit_and (x / 2 ^ suc k) c * t) (pow-suc 2 k),
    )
  where
    doubled : c * 2 ^ suc k ≡ 2 * (c * 2 ^ k)
    doubled = omega (arith, ap (λ (t : ℕ). c * t) (pow-suc 2 k))
