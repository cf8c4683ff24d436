-- ===== src/Base/JsNumber.antt =====
-- The values of JavaScript's number type: finite ones as exact fractions.
use Prim.Native.Nat.{ℕ, suc, ◌+◌, ◌-◌, ◌*◌, ◌/◌, ◌%◌}
use mathlib.Core.Option.{Option, none, some}
use mathlib.Core.Bool.{Bool, true, false, not, ◌&&◌, ◌||◌}
use nightpass.Base.Tests.{leb, ◌==◌, if◌then◌else◌}

-- `plus p q` is p / (q + 1), `minus p q` is - p / (q + 1).
pub data JsNumber : Type 0 where
  nan : JsNumber
  infinite : JsNumber
  minus_infinite : JsNumber
  plus : ℕ → ℕ → JsNumber
  minus : ℕ → ℕ → JsNumber

-- An integer.
abbrev pub int : ℕ → JsNumber
int n = plus n 0

-- `Number.isFinite(x)`
abbrev pub is_finite : JsNumber → Bool
is_finite (plus p q) = true
is_finite (minus p q) = true
is_finite _ = false

-- `a <= b`, false at NaN
abbrev pub num_le : JsNumber → JsNumber → Bool
num_le nan b = false
num_le a nan = false
num_le minus_infinite b = true
num_le a infinite = true
num_le infinite b = false
num_le a minus_infinite = false
num_le (plus p q) (plus r s) = leb (p * suc s) (r * suc q)
num_le (plus p q) (minus r s) = p == 0 && r == 0
num_le (minus p q) (plus r s) = true
num_le (minus p q) (minus r s) = leb (r * suc q) (p * suc s)

-- `2 * x`
abbrev pub double : JsNumber → JsNumber
double (plus p q) = plus (2 * p) q
double (minus p q) = minus (2 * p) q
double x = x

-- `Number.isNaN(x)`
abbrev pub is_nan : JsNumber → Bool
is_nan nan = true
is_nan _ = false

-- `a < b`, false at NaN
abbrev pub num_lt : JsNumber → JsNumber → Bool
num_lt a b = not (is_nan a) && not (is_nan b) && not (num_le b a)

-- `Math.max(a, b)` and `Math.min(a, b)`, up to the sign of zero
abbrev pub num_max : JsNumber → JsNumber → JsNumber
num_max a b = if is_nan a || is_nan b then nan else if num_le a b then b else a

abbrev pub num_min : JsNumber → JsNumber → JsNumber
num_min a b = if is_nan a || is_nan b then nan else if num_le a b then a else b

-- `n + x` of a natural number
abbrev pub add_nat : ℕ → JsNumber → JsNumber
add_nat n (plus p q) = plus (n * suc q + p) q
add_nat n (minus p q) =
    if leb p (n * suc q) then plus (n * suc q - p) q else minus (p - n * suc q) q
add_nat n x = x

-- `Number.isInteger(x)`
abbrev pub is_integer : JsNumber → Bool
is_integer (plus p q) = p % suc q == 0
is_integer (minus p q) = p % suc q == 0
is_integer _ = false

-- The natural number that it is, if it is one.
abbrev pub natural : JsNumber → Option ℕ
natural (plus p q) = if p % suc q == 0 then some (p / suc q) else none
natural (minus p q) = if p == 0 then some 0 else none
natural _ = none

-- `Math.round(x * n)`: the nearest integer, the upper one in the middle
abbrev pub round_times : ℕ → JsNumber → JsNumber
round_times n (plus p q) = int ((2 * (n * p) + suc q) / (2 * suc q))
round_times n (minus p q) =
    if leb (2 * (n * p)) (suc q)
    then int 0
    else minus ((2 * (n * p) - suc q + (2 * suc q - 1)) / (2 * suc q)) 0
round_times n x = x
