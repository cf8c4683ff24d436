-- ===== src/Base/Decimal.antt =====
-- `String(n)` of a natural number, `/^\d+$/` and `BigInt(s)` of decimal text.
use Prim.Native.Nat.{ℕ, zero, suc, ◌+◌, ◌-◌, ◌*◌, ◌/◌, ◌%◌, ◌<◌}
use mathlib.Core.Path.{◌≡◌, ap, ◌∙◌}
use mathlib.Core.Bool.{Bool, ◌&&◌, not}
use mathlib.Core.List.{[], ◌∷◌}
use native.Mathlib.Omega.{arith}
use nightpass.Base.Tests.{ltb, if◌then◌else◌, Bool-cases}
use mathlib.Core.Logic.{inl, inr}
use nightpass.Base.Lists.{all}
use nightpass.Base.Texts.{Text, is_digit, is_empty}

-- The digits in front of `out`, on fuel; the number falls by a factor of ten a round.
unfoldable pub decimal_onto : ℕ → ℕ → Text → Text
decimal_onto zero n out = out
decimal_onto (suc fuel) n out =
    let here = (b'0' + n % 10) ∷ out in
    let rest = decimal_onto fuel (n / 10) here in if ltb n 10 then here else rest

unfoldable pub decimal : ℕ → Text
unfolding decimal_onto
decimal n = decimal_onto (suc n) n []

unfoldable pub value_from : ℕ → Text → ℕ
value_from n [] = n
value_from n (c ∷ s) = value_from (n * 10 + (c - b'0')) s

-- `BigInt(s)` where `s` is all digits
unfoldable pub value : Text → ℕ
unfolding value_from
value s = value_from 0 s

-- /^\d+$/
abbrev pub is_decimal : Text → Bool
is_decimal s = not (is_empty s) && all is_digit s

value_from-decimal_onto :
    (fuel n : ℕ) (out : Text) → n < fuel → value_from 0 (decimal_onto fuel n out) ≡ value_from n out
unfolding decimal_onto value_from
value_from-decimal_onto zero n out h = elim h [ ]
value_from-decimal_onto (suc fuel) n out h = elim (Bool-cases (ltb n 10)) [
  | inl small ↦ rw small (ground arith)
  | inr large ↦ rw large (
      value_from-decimal_onto fuel (n / 10) ((b'0' + n % 10) ∷ out) (ground arith)
      ∙ ap (λ k. value_from k out) (omega arith))
]

-- Reading what was written gives the number back.
pub value-decimal : (n : ℕ) → value (decimal n) ≡ n
unfolding value decimal value_from
value-decimal n = value_from-decimal_onto (suc n) n [] (omega arith)
