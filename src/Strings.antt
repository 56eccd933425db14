-- ===== src/Strings.antt =====
-- kernel/lib/string.c: C strings, and numbers as text.
-- An array is the bytes from a pointer on, and no two of a call's arrays overlap. `none` is a run that
-- is not done within its fuel: an `int` counts at most 2 ^ 31 - 1 characters, and a number below 2 ^ 31
-- has at most 31 digits. `vsprintf` is not compiled; `memcpy` is in `Memory`, at addresses.
pub mod Chars
pub mod Negative
pub mod Numbers
use weg_os.Base.{
  ℕ, zero, suc, ◌+◌, ◌-◌, ◌*◌, ◌/◌, ◌%◌, ◌^◌, Option, none, some, ◌>>=◌, ◌==◌, leb, ltb,
  if◌then◌else◌, Array, update,
}

pub strlen_loop : ℕ → Array ℕ → ℕ → Option ℕ
strlen_loop zero text i = none
strlen_loop (suc rounds) text i =
    let rest = strlen_loop rounds text (i + 1) in if text i == 0 then some i else rest

unfoldable pub strlen : Array ℕ → Option ℕ
strlen text = strlen_loop (2 ^ 31) text 0

-- The loop of `strcpy`, of `memcpy` and of the end of `itoa`, from byte i on.
pub copy_bytes : ℕ → ℕ → Array ℕ → Array ℕ → Array ℕ
copy_bytes zero i dest src = dest
copy_bytes (suc rounds) i dest src = copy_bytes rounds (i + 1) (update dest i (src i)) src

unfoldable pub strcpy : Array ℕ → Array ℕ → Option (Array ℕ)
strcpy dest src = do length ← strlen src; some (copy_bytes (length + 1) 0 dest src)

-- The loop of `strcmp` from character i on.
pub compare_loop : ℕ → ℕ → Array ℕ → Array ℕ → ℕ
compare_loop zero i str1 str2 = 0
compare_loop (suc rounds) i str1 str2 =
    let rest = compare_loop rounds (i + 1) str1 str2 in if str1 i == str2 i then rest else 1

unfoldable pub strcmp : Array ℕ → Array ℕ → Option ℕ
strcmp str1 str2 = do
  length1 ← strlen str1
  length2 ← strlen str2
  if length1 == length2 then some (compare_loop length1 0 str1 str2) else some 1

-- The last of the first so many characters that is a slash.
unfoldable pub last_slash : ℕ → Array ℕ → Option ℕ
last_slash zero path = none
last_slash (suc i) path = let rest = last_slash i path in if path i == 47 then some i else rest

unfoldable pub get_parent_dir_name : Array ℕ → Array ℕ → Option (Array ℕ)
get_parent_dir_name path parent_dir_name = do
  len ← strlen path
  if len == 0 then some (update parent_dir_name 0 0) else elim (last_slash (len - 1) path) [
    | none ↦ some (update parent_dir_name 0 0)
    | some pos ↦ some (update (copy_bytes (pos + 1) 0 parent_dir_name path) (pos + 1) 0)
  ]

-- The loop of `reverse`; half the length is enough fuel, and the rest is not used.
pub reverse_loop : ℕ → ℕ → ℕ → Array ℕ → Array ℕ
reverse_loop zero start end str = str
reverse_loop (suc rounds) start end str =
    let rest =
      reverse_loop rounds (start + 1) (end - 1)
        (update (update str start (str end)) end (str start)) in
    if ltb start end then rest else str

unfoldable pub reverse : Array ℕ → ℕ → Array ℕ
reverse str length = reverse_loop length 0 (length - 1) str

abbrev pub digit_char : ℕ → ℕ
digit_char remainder = if ltb 9 remainder then remainder - 10 + 97 else remainder + 48

-- The loop of `itoa`: the number of characters and the buffer.
pub digits_loop : ℕ → ℕ → ℕ → ℕ → Array ℕ → Option (ℕ × Array ℕ)
digits_loop zero num radix i buffer = none
digits_loop (suc rounds) num radix i buffer =
    let rest =
      digits_loop rounds (num / radix) radix (i + 1) (update buffer i (digit_char (num % radix))) in
    if num == 0 then some (i, buffer) else rest

-- `num` is the bit pattern of an `int32_t`, other than the least, whose negation overflows. `buffer` is
-- what its 32 bytes and those behind it hold before.
unfoldable pub itoa : Array ℕ → ℕ → ℕ → Array ℕ → Option (Array ℕ)
itoa buffer num radix text =
    let is_negative = leb (2 ^ 31) num in
    let magnitude = if is_negative then 2 ^ 32 - num else num in
    if num == 0 then some (update (update text 0 48) 1 0) else (do
      r ← digits_loop 32 magnitude radix 0 buffer
      let i = if is_negative then r.0 + 1 else r.0
      let signed = if is_negative then update r.1 r.0 45 else r.1
      let reversed = reverse (update signed i 0) i
      some (update (copy_bytes i 0 text reversed) i 0))

-- `get_itoa` writes into the static `text`, and returns it.
unfoldable pub get_itoa : Array ℕ → Array ℕ → ℕ → ℕ → Option (Array ℕ)
get_itoa buffer text num radix = itoa buffer num radix text

-- The loop of `memset` from byte i on.
pub set_bytes : ℕ → ℕ → Array ℕ → ℕ → Array ℕ
set_bytes zero i s c = s
set_bytes (suc rounds) i s c = set_bytes rounds (i + 1) (update s i (c % 2 ^ 8)) c

unfoldable pub memset : Array ℕ → ℕ → ℕ → Array ℕ
memset s c n = set_bytes n 0 s c
