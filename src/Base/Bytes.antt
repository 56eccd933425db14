-- ===== src/Base/Bytes.antt =====
-- Memory as bytes, and the little-endian 32-bit access of the i386 at any address.
use Prim.Native.Nat.{ℕ, ◌+◌, ◌*◌, ◌/◌, ◌%◌, ◌^◌, ◌≤◌, ◌<◌}
use mathlib.Core.Path.{◌≡◌}
use mathlib.Core.Logic.{◌⊎◌}
use native.Mathlib.Omega.{arith}
use weg_os.Base.Arrays.{Array, update}

-- `*(uint32_t *)&a[i]`
unfoldable pub load32 : Array ℕ → ℕ → ℕ
load32 a i = a i + 2 ^ 8 * a (i + 1) + 2 ^ 16 * a (i + 2) + 2 ^ 24 * a (i + 3)

-- `*(uint32_t *)&a[i] = w`
unfoldable pub store32 : Array ℕ → ℕ → ℕ → Array ℕ
store32 a i w =
    update
      (update (update (update a i (w % 2 ^ 8)) (i + 1) (w / 2 ^ 8 % 2 ^ 8)) (i + 2)
        (w / 2 ^ 16 % 2 ^ 8))
      (i + 3) (w / 2 ^ 24 % 2 ^ 8)

abbrev pub IsBytes : Array ℕ → Type 0
IsBytes a = (i : ℕ) → a i < 2 ^ 8

pub load32-store32_self : (a : Array ℕ) (i w : ℕ) → w < 2 ^ 32 → load32 (store32 a i w) i ≡ w
unfolding load32 store32
load32-store32_self a i w h = ground arith

pub load32-store32_apart :
    (a : Array ℕ) (i j w : ℕ) → (i + 4 ≤ j) ⊎ (j + 4 ≤ i) → load32 (store32 a i w) j ≡ load32 a j
unfolding load32 store32
load32-store32_apart a i j w h = ground arith

pub store32-apart : (a : Array ℕ) (i j w : ℕ) → (j < i) ⊎ (i + 4 ≤ j) → store32 a i w j ≡ a j
unfolding store32
store32-apart a i j w h = ground arith

pub load32-lt : (a : Array ℕ) (i : ℕ) → IsBytes a → load32 a i < 2 ^ 32
unfolding load32
load32-lt a i h = omega (arith, h i, h (i + 1), h (i + 2), h (i + 3))

pub store32-IsBytes : (a : Array ℕ) (i w : ℕ) → IsBytes a → IsBytes (store32 a i w)
unfolding store32
store32-IsBytes a i w h j = ground (arith, h j)
