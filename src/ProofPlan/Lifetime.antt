-- ===== src/ProofPlan/Lifetime.antt =====
-- The expiry that claimValidUntil computes.
use nightpass.Base.{
  ℕ, suc, ◌+◌, ◌*◌, ◌/◌, ◌≤◌, ◌≡◌, refl, arith, Option, none, some, or_else, ok, is_ok, ◌&&◌, not,
}
use nightpass.Base.JsNumber.{
  JsNumber, nan, infinite, minus_infinite, plus, minus, int, is_finite, num_le,
}
use nightpass.ProofPlan.{claim_valid_until, max_claim_lifetime_s}

floor_le : (p q : ℕ) → p * 1 ≤ max_claim_lifetime_s * suc q → p / suc q ≤ max_claim_lifetime_s
floor_le p q h = grind arith

claim_valid_until-range :
    (life : JsNumber) (now_ms until : ℕ)
    → claim_valid_until (some life) now_ms ≡ ok until
    → (now_ms / 1000 ≤ until) × (until ≤ now_ms / 1000 + max_claim_lifetime_s)
unfolding claim_valid_until
claim_valid_until-range nan now_ms until h = ground arith
claim_valid_until-range infinite now_ms until h = ground arith
claim_valid_until-range minus_infinite now_ms until h = ground arith
claim_valid_until-range (plus p q) now_ms until h = ground (arith, floor_le p q)
claim_valid_until-range (minus p q) now_ms until h = ground arith

-- An expiry is given exactly for an absent lifetime, or one that is finite and positive.
pub claim_valid_until-is_ok :
    (lifetime : Option JsNumber) (now_ms : ℕ)
    → is_ok (claim_valid_until lifetime now_ms)
      ≡ (is_finite (or_else lifetime (int 1)) && not (num_le (or_else lifetime (int 1)) (int 0)))
unfolding claim_valid_until
claim_valid_until-is_ok none now_ms = refl
claim_valid_until-is_ok (some life) now_ms = ground arith

-- An expiry lies between now and now plus the cap of the vault, also for a longer lifetime.
pub claim_valid_until_bounds :
    (lifetime : Option JsNumber) (now_ms until : ℕ)
    → claim_valid_until lifetime now_ms ≡ ok until
    → (now_ms / 1000 ≤ until) × (until ≤ now_ms / 1000 + max_claim_lifetime_s)
unfolding claim_valid_until
claim_valid_until_bounds none now_ms until h = ground arith
claim_valid_until_bounds (some life) now_ms until h = claim_valid_until-range life now_ms until h
