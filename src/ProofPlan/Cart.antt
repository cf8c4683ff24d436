-- ===== src/ProofPlan/Cart.antt =====
-- What a proof cart plan holds, and when there is one.
use nightpass.Base.{
  ℕ, ◌+◌, ◌<◌, ◌≡◌, refl, arith, Bool, true, not, ◌&&◌, List, [], ◌∷◌, ◌++◌, map, Option, some,
  Text, is_hex32, text_eq, All, All-filter_self, All-partition, Distinct, Distinct-partition,
  any-partition, length-partition, length, filter, ltb, ltb→lt, leb, ok, is_ok, Ensures,
  Ensures-bind, Ensures-elim, Ensures-require, is_ok-bind, ap, ◌∙◌, if◌then◌else◌, partition, all,
}
use nightpass.Base.Decimal.{decimal, value, value-decimal, is_decimal}
use nightpass.ProofPlan.{
  ProofClaim, RawClaim, raw_predicate, raw_membership, CartPlan, CartCall, prove_field_predicate,
  prove_field_membership, claim_key, normalise, collect, is_membership, call_of, has,
  bad_record_key, empty_cart, bad_valid_until, plan_of, expiry_of, is_nil, proof_cart_plan,
  max_threshold, check_claim_hex32, check_threshold, check_op,
}
use nightpass.ProofPlan.Keys.{IsNormal}
use nightpass.ProofPlan.Collect.{has_claim, IsCollected, IsCovered, collect-IsCollected, All-map}

-- The record key and the expiry that a call names.
abbrev pub Names : Text → ℕ → CartCall → Type 0
Names key until (prove_field_predicate k field threshold op u) = (k ≡ key) × (value u ≡ until)
Names key until (prove_field_membership k field root u) = (k ≡ key) × (value u ≡ until)

pub record IsCart (record_key : Text) (raws : List RawClaim) (plan : CartPlan) : Type 0 where
  -- membership claims lead
  pub memberships : List ProofClaim
  pub predicates : List ProofClaim
  pub in_order : plan.claims ≡ memberships ++ predicates
  pub lead : All (λ c. is_membership c ≡ true) memberships
  pub follow : All (λ c. not (is_membership c) ≡ true) predicates
  -- one call for each claim, in the claims' order, on the record and with the expiry of the plan
  pub aligned : plan.calls ≡ map (call_of record_key (decimal plan.valid_until)) plan.claims
  pub calls_name : All (Names record_key plan.valid_until) plan.calls
  pub not_expired : 0 < plan.valid_until
  -- the claims are well formed, no two have one key, and none of the input is lost
  pub normal : All IsNormal plan.claims
  pub distinct : Distinct claim_key plan.claims
  pub repeated : All (λ d. has_claim (claim_key d) plan.claims ≡ true) plan.dropped
  pub total : length plan.claims + length plan.dropped ≡ length raws
  pub covered : All (IsCovered [] plan.claims) raws

calls-Names :
    (key : Text) (until : ℕ) (cs : List ProofClaim)
    → All (Names key until) (map (call_of key (decimal until)) cs)
calls-Names key until [] = tt
calls-Names key until (ProofClaim.predicate f t o ∷ cs) =
    ((refl, value-decimal until), calls-Names key until cs)
calls-Names key until (ProofClaim.membership f r ∷ cs) =
    ((refl, value-decimal until), calls-Names key until cs)

plan_of-IsCart :
    (key : Text) (raws : List RawClaim) (expiry : ℕ) (parts : List ProofClaim × List ProofClaim)
    → 0 < expiry
    → IsCollected [] raws parts
    → IsCart key raws (plan_of key expiry parts)
plan_of-IsCart key raws expiry (kept, dropped) positive h = record {
  memberships = filter is_membership kept;
  predicates = filter (λ c. not (is_membership c)) kept;
  in_order = refl;
  lead = All-filter_self is_membership kept;
  follow = All-filter_self (λ c. not (is_membership c)) kept;
  aligned = refl;
  calls_name = calls-Names key expiry (partition is_membership kept);
  not_expired = positive;
  normal = All-partition is_membership IsNormal kept h.normal;
  distinct = Distinct-partition is_membership claim_key kept h.distinct;
  repeated =
      All-map
        (λ d found.
          any-partition is_membership (λ c. text_eq (claim_key d) (claim_key c)) kept found)
        dropped h.repeated;
  total = omega (arith, h.total, length-partition {0} is_membership kept);
  covered =
      All-map
        (λ r (i, c, e, found). (
          i,
          c,
          e,
          any-partition is_membership (λ d. text_eq (claim_key c) (claim_key d)) kept found,
        ))
        raws h.covered;
}

proof_cart_plan-Ensures :
    (key : Text) (raws : List RawClaim) (until : Option ℕ) (now_ms : ℕ)
    → Ensures (IsCart key raws) (proof_cart_plan key raws until now_ms)
unfolding proof_cart_plan
proof_cart_plan-Ensures key raws until now_ms =
    Ensures-require (IsCart key raws) (is_hex32 key) bad_record_key _ λ _.
      Ensures-require (IsCart key raws) (not (is_nil raws)) empty_cart _ λ _.
        Ensures-bind (IsCart key raws) (expiry_of until now_ms) _ λ expiry _.
          Ensures-require (IsCart key raws) (ltb 0 expiry) bad_valid_until _ λ positive.
            Ensures-bind (IsCart key raws) (collect 0 [] raws) _ λ parts e.
              plan_of-IsCart key raws expiry parts (ltb→lt 0 expiry positive)
                (Ensures-elim (IsCollected [] raws) (collect-IsCollected 0 [] raws) e)

-- A plan leads with the membership claims, has one call for each claim on the record and with the
-- plan's expiry, its claims are in lower case and in range, no two have the same key, every claim
-- that was handed over is among them, and exactly the repeated ones are dropped.
pub proof_cart_plan-IsCart :
    (key : Text) (raws : List RawClaim) (until : Option ℕ) (now_ms : ℕ) (plan : CartPlan)
    → proof_cart_plan key raws until now_ms ≡ ok plan
    → IsCart key raws plan
proof_cart_plan-IsCart key raws until now_ms plan =
    Ensures-elim (IsCart key raws) (proof_cart_plan-Ensures key raws until now_ms)

-- The claims that can be proven: hexadecimal key and root, a decimal threshold of at most 2^63 - 1,
-- an operator of 0 or 1.
abbrev pub provable : RawClaim → Bool
provable (raw_predicate field threshold op) =
    is_hex32 field && is_decimal threshold && leb (value threshold) max_threshold && leb op 1
provable (raw_membership field root) = is_hex32 field && is_hex32 root

normalise-is_ok : (i : ℕ) (raw : RawClaim) → is_ok (normalise i raw) ≡ provable raw
unfolding normalise check_claim_hex32 check_threshold check_op
normalise-is_ok i (raw_predicate field threshold op) = ground arith
normalise-is_ok i (raw_membership field root) = ground arith

and-true : (b : Bool) → (b && true) ≡ b
and-true b = ground arith

collect-is_ok :
    (i : ℕ) (seen : List Text) (raws : List RawClaim)
    → is_ok (collect i seen raws) ≡ all provable raws
unfolding collect
collect-is_ok i seen [] = refl
collect-is_ok i seen (raw ∷ raws) =
    is_ok-bind (normalise i raw) _ (all provable raws) (λ claim _.
      is_ok-bind (collect (i + 1) (seen_after claim) raws) _ true (λ _ _. refl)
      ∙ and-true _
      ∙ collect-is_ok (i + 1) (seen_after claim) raws)
    ∙ ap (λ b. b && all provable raws) (normalise-is_ok i raw)
  where
    seen_after : ProofClaim → List Text
    seen_after claim = if has (claim_key claim) seen then seen else claim_key claim ∷ seen

-- A plan is made exactly if the record key is 32 bytes of hex, there is a claim, the expiry is
-- positive, and every claim can be proven.
pub proof_cart_plan-is_ok :
    (key : Text) (raws : List RawClaim) (until now_ms : ℕ)
    → is_ok (proof_cart_plan key raws (some until) now_ms)
      ≡ (is_hex32 key && not (is_nil raws) && ltb 0 until && all provable raws)
unfolding proof_cart_plan expiry_of
proof_cart_plan-is_ok key raws until now_ms = ground (arith, collect-is_ok 0 [] raws)
