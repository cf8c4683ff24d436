-- ===== src/ProofPlan/Tests.antt =====
-- Carts of concrete claims, and the theorems at them.
use nightpass.Base.{
  ◌+◌, ◌/◌, ◌≤◌, ◌≡◌, refl, List, [], ◌∷◌, none, some, Text, codes, lower, is_hex32, is_lower_hex32,
  text_eq, ok, err,
}
use nightpass.Base.Decimal.{decimal, value}
use nightpass.Base.JsNumber.{plus, int}
use nightpass.ProofPlan.{
  less_or_equal, predicate, membership, RawClaim, raw_predicate, raw_membership, CartPlan,
  prove_field_predicate, prove_field_membership, claim_valid_until, claim_key, normalise, collect,
  proof_cart_plan, check_claim_hex32, check_threshold, check_op, expiry_of, max_claim_lifetime_s,
  bad_op, bad_lifetime, threshold_too_large, empty_cart, middle_of,
}
use nightpass.ProofPlan.Lifetime.{claim_valid_until_bounds}
use nightpass.ProofPlan.Keys.{IsNormal, claim_key-injective}
use nightpass.ProofPlan.Cart.{IsCart, proof_cart_plan-IsCart}

opened : Unit {0}
unfolding proof_cart_plan expiry_of collect normalise check_claim_hex32 check_threshold check_op
    claim_key lower is_hex32 text_eq decimal value
opened = tt

abbrev key_a : Text
key_a = codes "AAAAAAAAAAAAAAAAAAAAAAAAAAAAAAAAAAAAAAAAAAAAAAAAAAAAAAAAAAAAAAAA"

abbrev key_b : Text
key_b = codes "bbbbbbbbbbbbbbbbbbbbbbbbbbbbbbbbbbbbbbbbbbbbbbbbbbbbbbbbbbbbbbbb"

abbrev low_a : Text
low_a = codes "aaaaaaaaaaaaaaaaaaaaaaaaaaaaaaaaaaaaaaaaaaaaaaaaaaaaaaaaaaaaaaaa"

-- A predicate, the same one in lower case, and a membership claim.
abbrev raws : List RawClaim
raws =
    raw_predicate key_a (codes "4000000") 0
    ∷ raw_predicate low_a (codes "4000000") 0
    ∷ raw_membership key_b key_a
    ∷ []

abbrev planned : CartPlan
planned = record {
  calls =
      prove_field_membership key_b key_b low_a (codes "1800000000")
      ∷ prove_field_predicate key_b low_a (codes "4000000") (codes "0") (codes "1800000000")
      ∷ [];
  claims = membership key_b low_a ∷ predicate low_a (codes "4000000") less_or_equal ∷ [];
  dropped = predicate low_a (codes "4000000") less_or_equal ∷ [];
  valid_until = 1800000000;
}

planned_lem : proof_cart_plan key_b raws (some 1800000000) 0 ≡ ok planned
unfolding opened
planned_lem = refl

refusals :
    (proof_cart_plan key_b [] none 0 ≡ err empty_cart)
    × (proof_cart_plan key_b (raw_predicate key_a (codes "1") 2 ∷ []) none 0 ≡ err (bad_op 0))
    × (proof_cart_plan key_b (raw_predicate key_a (codes "9223372036854775808") 1 ∷ []) none 0
        ≡ err (threshold_too_large 0))
unfolding opened claim_valid_until
refusals = (refl, refl, refl)

lifetimes :
    (claim_valid_until none 5999 ≡ ok 157593605)
    × (claim_valid_until (some (plus 5 1)) 5999 ≡ ok 7)
    × (claim_valid_until (some (int 0)) 5999 ≡ err bad_lifetime)
unfolding claim_valid_until
lifetimes = (refl, refl, refl)

proof_cart_plan-IsCart_example : IsCart key_b raws planned
proof_cart_plan-IsCart_example =
    proof_cart_plan-IsCart key_b raws (some 1800000000) 0 planned planned_lem

claim_b : IsNormal (membership key_b key_b)
unfolding is_lower_hex32 lower
claim_b = ((refl, refl), (refl, refl))

claim_key-injective_example : membership key_b key_b ≡ membership key_b key_b
claim_key-injective_example =
    claim_key-injective (membership key_b key_b) (membership key_b key_b) claim_b claim_b refl

claim_valid_until_bounds_example :
    (5999 / 1000 ≤ 157593605) × (157593605 ≤ 5999 / 1000 + max_claim_lifetime_s)
claim_valid_until_bounds_example = claim_valid_until_bounds none 5999 157593605 lifetimes.0

separable :
    (lower (codes "F") ≡ codes "f")
    × (middle_of (codes "lessOrEqual") (some (codes "5")) none ≡ codes "5")
unfolding lower text_eq
separable = (refl, refl)
