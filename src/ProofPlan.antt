-- ===== src/ProofPlan.antt =====
-- srv/lib/proof-plan.ts: the ordered circuit calls of one proof cart. A field typed
-- `number | string` is the text that `String` gives; `op` is the number that `Number` gives, where
-- any other than 0 and 1 stands for every value that is neither.
pub mod Lifetime
pub mod Keys
pub mod Collect
pub mod Cart
pub mod Responses
mod Tests
use nightpass.Base.{
  ℕ, suc, ◌+◌, ◌-◌, ◌*◌, ◌/◌, Bool, true, false, not, ◌||◌, List, [], ◌∷◌, ◌++◌, map, Option, none,
  some, String, Text, codes, is_hex32, is_empty, lower, text_eq, any, filter, partition,
  if◌then◌else◌, ltb, leb, ◌==◌, or_else, truthy, Result, ok, err, ◌>>=◌, ◌>>◌, require,
}
use nightpass.Base.Decimal.{is_decimal, value, decimal}
use nightpass.Base.JsNumber.{JsNumber, plus, int, is_finite, num_le}

pub data CartError : Type 0 where
  bad_lifetime empty_cart bad_valid_until bad_record_key : CartError
  claim_not_hex32 : ℕ → String → CartError
  threshold_not_integer threshold_too_large bad_op : ℕ → CartError

abbrev pub max_claim_lifetime_s : ℕ
max_claim_lifetime_s = 157_680_000

abbrev pub default_claim_lifetime_s : ℕ
default_claim_lifetime_s = max_claim_lifetime_s - 24 * 60 * 60

abbrev pub max_threshold : ℕ
max_threshold = 9223372036854775807

-- `Math.floor` of a number that is finite and positive
abbrev pub floor : JsNumber → ℕ
floor (plus p q) = p / suc q
floor x = 0

unfoldable pub claim_valid_until : Option JsNumber → ℕ → Result CartError ℕ
claim_valid_until lifetime now_ms =
    let life = or_else lifetime (int default_claim_lifetime_s) in
    if not (is_finite life) || num_le life (int 0)
    then err bad_lifetime
    else if not (num_le life (int max_claim_lifetime_s))
    then ok (now_ms / 1000 + default_claim_lifetime_s)
    else ok (now_ms / 1000 + floor life)

pub data Op : Type 0 where
  less_or_equal greater_or_equal : Op

pub data ProofClaim : Type 0 where
  predicate : (field_key threshold : Text) → Op → ProofClaim
  membership : (field_key set_root : Text) → ProofClaim

-- A claim as the caller hands it over.
pub data RawClaim : Type 0 where
  raw_predicate : (field_key threshold : Text) (op : ℕ) → RawClaim
  raw_membership : (field_key set_root : Text) → RawClaim

pub data CartCall : Type 0 where
  prove_field_predicate : (record_key field_key threshold op valid_until : Text) → CartCall
  prove_field_membership : (record_key field_key set_root valid_until : Text) → CartCall

pub record CartPlan : Type 0 where
  pub calls : List CartCall
  pub claims : List ProofClaim
  pub dropped : List ProofClaim
  pub valid_until : ℕ

abbrev pub op_text : Op → Text
op_text less_or_equal = b'0' ∷ []
op_text greater_or_equal = b'1' ∷ []

unfoldable pub check_claim_hex32 : Text → ℕ → String → Result CartError Text
check_claim_hex32 s i label = if is_hex32 s then ok s else err (claim_not_hex32 i label)

unfoldable pub check_threshold : Text → ℕ → Result CartError Text
check_threshold s i =
    if is_decimal s
    then if ltb max_threshold (value s) then err (threshold_too_large i) else ok s
    else err (threshold_not_integer i)

unfoldable pub check_op : ℕ → ℕ → Result CartError Op
check_op op i =
    if op == 0 then ok less_or_equal else if op == 1 then ok greater_or_equal else err (bad_op i)

abbrev bar : ℕ
bar = b'|'

unfoldable pub claim_key : ProofClaim → Text
claim_key (membership field root) = lower field ++ (bar ∷ (b'm' ∷ bar ∷ lower root))
claim_key (predicate field threshold op) = lower field ++ (bar ∷ (threshold ++ (bar ∷ op_text op)))

-- The claim as `claims.forEach` keeps it: checked, its hexadecimal text in lower case.
unfoldable pub normalise : ℕ → RawClaim → Result CartError ProofClaim
normalise i (raw_membership field root) = do
  f ← check_claim_hex32 field i "fieldKey"
  r ← check_claim_hex32 root i "setRoot"
  ok (membership (lower f) (lower r))
normalise i (raw_predicate field threshold op) = do
  f ← check_claim_hex32 field i "fieldKey"
  t ← check_threshold threshold i
  o ← check_op op i
  ok (predicate (lower f) t o)

abbrev pub has : Text → List Text → Bool
has key = any (text_eq key)

-- Where the claim goes whose key was seen, or was not.
abbrev pub place :
    Bool → ProofClaim → List ProofClaim × List ProofClaim → List ProofClaim × List ProofClaim
place true claim (kept, dropped) = (kept, claim ∷ dropped)
place false claim (kept, dropped) = (claim ∷ kept, dropped)

-- The loop over the claims: `seen` before it, the kept and the dropped claims after it.
unfoldable pub collect :
    ℕ → List Text → List RawClaim → Result CartError (List ProofClaim × List ProofClaim)
collect i seen [] = ok ([], [])
collect i seen (raw ∷ raws) = normalise i raw >>= λ claim.
    collect (i + 1) (if has (claim_key claim) seen then seen else claim_key claim ∷ seen) raws
    >>= λ rest. ok (place (has (claim_key claim) seen) claim rest)

abbrev pub is_membership : ProofClaim → Bool
is_membership (membership field root) = true
is_membership (predicate field threshold op) = false

abbrev pub call_of : Text → Text → ProofClaim → CartCall
call_of key until (membership field root) = prove_field_membership key field root until
call_of key until (predicate field threshold op) =
    prove_field_predicate key field threshold (op_text op) until

-- `validUntil ?? claimValidUntil()`
unfoldable pub expiry_of : Option ℕ → ℕ → Result CartError ℕ
expiry_of none now_ms = claim_valid_until none now_ms
expiry_of (some until) now_ms = ok until

abbrev pub is_nil : List RawClaim → Bool
is_nil [] = true
is_nil (c ∷ cs) = false

abbrev plan_of : Text → ℕ → List ProofClaim × List ProofClaim → CartPlan
plan_of key expiry (kept, dropped) =
    let ordered = partition is_membership kept in
    record {
      calls = map (call_of key (decimal expiry)) ordered;
      claims = ordered;
      dropped = dropped;
      valid_until = expiry;
    }

unfoldable pub proof_cart_plan : Text → List RawClaim → Option ℕ → ℕ → Result CartError CartPlan
unfolding expiry_of
proof_cart_plan record_key claims valid_until now_ms = do
  require (is_hex32 record_key) bad_record_key
  require (not (is_nil claims)) empty_cart
  expiry ← expiry_of valid_until now_ms
  require (ltb 0 expiry) bad_valid_until
  parts ← collect 0 [] claims
  ok (plan_of record_key expiry parts)

-- The components of a response's element; any of them may be absent.
pub record ResponseClaim : Type 0 where
  pub field_key : Option Text
  pub predicate : Option Text
  pub threshold : Option Text
  pub set_root : Option Text

-- The component between the bars: the lower-case set root, or the threshold.
abbrev pub middle_of : Text → Option Text → Option Text → Text
middle_of p threshold root =
    if text_eq p (codes "setMembership") then lower (or_else root []) else or_else threshold []

abbrev joined : Text → Text → Text → Option Text
joined field mid p = if is_empty mid then none else some (lower field ++ (bar ∷ (mid ++ (bar ∷ p))))

key_of : Option Text → Option Text → Option Text → Option Text → Option Text
key_of none p threshold root = none
key_of (some field) none threshold root = none
key_of (some field) (some p) threshold root = joined field (middle_of p threshold root) p

unfoldable pub response_claim_key : ResponseClaim → Option Text
unfolding key_of
response_claim_key c = key_of (truthy c.field_key) c.predicate c.threshold c.set_root
