-- ===== src/Meaning/Words.antt =====
-- 32-bit words, and what the arithmetic instructions do with them. `none` is undefined behaviour.
use th_lang.Base.{
  ℕ, ◌+◌, ◌-◌, ◌*◌, ◌/◌, ◌%◌, ◌^◌, Bool, ◌==◌, leb, ltb, ◌&&◌, Option, none, some, if◌then◌else◌,
}
use th_lang.Base.Int.{ℤ, pos, negsuc}
use th_lang.Llvm.{Binary, add, sub, mul, sdiv, shl, ashr}

abbrev word_mod : ℕ
word_mod = 2 ^ 32

unfoldable pub negate : ℕ → ℕ
negate a = (word_mod - a % word_mod) % word_mod

unfoldable pub word_of : ℤ → ℕ
unfolding negate
word_of (pos n) = n % word_mod
word_of (negsuc n) = negate (n + 1)

-- The numbers that the words stand for are from -2 ^ 31 to 2 ^ 31 - 1.
unfoldable pub is_negative : ℕ → Bool
is_negative a = leb (2 ^ 31) a

unfoldable pub magnitude : ℕ → ℕ
unfolding is_negative negate
magnitude a = if is_negative a then negate a else a

-- The quotient is rounded towards 0.
unfoldable pub quotient : ℕ → ℕ → ℕ
unfolding is_negative negate magnitude
quotient a b =
    let q = magnitude a / magnitude b in
    if is_negative a
    then (if is_negative b then q else negate q)
    else if is_negative b
    then negate q
    else q

unfoldable pub divide : ℕ → ℕ → Option ℕ
unfolding quotient
divide a b =
    if b == 0 then none else if a == 2 ^ 31 && b == word_mod - 1 then none else some (quotient a b)

unfoldable pub sum : ℕ → ℕ → ℕ
sum a b = (a + b) % word_mod

unfoldable pub difference : ℕ → ℕ → ℕ
unfolding negate
difference a b = (a + negate b) % word_mod

unfoldable pub product : ℕ → ℕ → ℕ
product a b = (a * b) % word_mod

-- The bits move to the left; an amount of 32 or more is undefined.
unfoldable pub shift_left : ℕ → ℕ → Option ℕ
shift_left a b = if ltb b 32 then some ((a * 2 ^ b) % word_mod) else none

-- They move to the right, with the sign behind them.
unfoldable pub shift_right : ℕ → ℕ → Option ℕ
unfolding is_negative
shift_right a b =
    if ltb b 32
    then some (if is_negative a then word_mod - 1 - (word_mod - 1 - a) / 2 ^ b else a / 2 ^ b)
    else none

-- The instructions on two words, as LLVM's reference manual has them.
unfoldable pub apply : Binary → ℕ → ℕ → Option ℕ
unfolding sum difference product divide shift_left shift_right
apply add a b = some (sum a b)
apply sub a b = some (difference a b)
apply mul a b = some (product a b)
apply sdiv a b = divide a b
apply shl a b = shift_left a b
apply ashr a b = shift_right a b
apply i a b = none
