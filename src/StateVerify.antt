-- ===== src/StateVerify.antt =====
-- srv/lib/state-verify.ts: the verdict on a wallet action by the state that it left on the ledger.
-- The state reads, the plugin's parameter model and the table of grants are parameters; `none` is
-- a read that throws.
pub mod Selectors
pub mod Verdicts
pub mod Attests
pub mod Roots
pub mod Grants
mod Tests
use nightpass.Base.{
  ℕ, Bool, true, false, not, ◌&&◌, ◌||◌, List, [], ◌∷◌, Option, none, some, Text, norm, is_empty,
  is_lower_hex32, text_or_empty, text_eq, truthy, if◌then◌else◌, ltb, or_else,
}
use nightpass.ChainLane.{ClaimPredicate, compares, set_membership}
use nightpass.ChainVerify.{ChainVerdict, confirmed, unknown}

pub record RecordSelector : Type 0 where
  pub contract_address : Option Text
  pub payload_hash : Option Text
  pub attester_id : Option Text
  pub document_id : Option Text

-- The arguments that name a record.
pub data SelectorArgs : Type 0 where
  by_attester : (contract attester payload : Text) → SelectorArgs
  by_document : (contract document payload : Text) → SelectorArgs

-- What a cross-root claim is about, with its bound.
pub data CrossRootKind : Type 0 where
  document_integrity document_diff : CrossRootKind

-- The state reads, with their arguments.
pub data Query : Type 0 where
  attestation : SelectorArgs → (content_root schema_id : Option Text) → Query
  cross_root :
      (contract attester payload payload_b : Text) (attester_b : Option Text)
      → CrossRootKind
      → (bound : ℕ) → Query
  membership_claim :
      (contract attester payload : Text) (field : Option Text) (set_root : Text) → Query
  numeric_claim :
      (contract attester payload : Text) (field : Option Text)
      → ClaimPredicate
      → (threshold : ℕ) → Query

-- An answer; a component that it lacks is `none`.
pub record Answer : Type 0 where
  pub verified : Option Bool
  pub attested : Option Bool
  pub content_root_ok : Option Bool
  pub schema_ok : Option Bool
  pub attester_id : Option Text

pub data Param : Type 0 where
  schema_id_param payload_hash_b_param k_param allowed_mask_param set_root_param : Param

pub record GrantQuery : Type 0 where
  pub contract_address : Text
  pub payload_hash : Text
  pub grantee : Text
  pub attester_id : Option Text

-- `reindex` is `reindexDisclosures`, with the table of active grants that it leaves: the number of
-- active rows that match.
pub record Reader : Type 0 where
  pub read : Query → Option Answer
  pub available : Param → Bool
  pub reindex : Text → Option (GrantQuery → Option ℕ)

abbrev pub is_true : Option Bool → Bool
is_true (some true) = true
is_true b = false

abbrev pub is_false : Option Bool → Bool
is_false (some false) = true
is_false b = false

unfoldable pub record_selector_args : RecordSelector → Option SelectorArgs
record_selector_args o =
    let contract = norm o.contract_address in
    let payload = norm o.payload_hash in
    let attester = norm o.attester_id in
    let document = norm o.document_id in
    if is_empty contract || is_empty payload
    then none
    else if is_lower_hex32 attester
    then some (by_attester contract attester payload)
    else if is_lower_hex32 document
    then some (by_document contract document payload)
    else none

-- `o.contentRoot ? norm(o.contentRoot) : omitted`
abbrev pub norm_given : Option Text → Option Text
norm_given none = none
norm_given (some s) = some (norm (some s))

abbrev pub verified_verdict : Option Answer → ChainVerdict
verified_verdict none = unknown
verified_verdict (some res) = if is_true res.verified then confirmed else unknown

module _ (env : Reader) where
  abbrev pub attest_verdict : Option SelectorArgs → Option Text → ChainVerdict
  attest_verdict none root = unknown
  attest_verdict (some sel) root =
      verified_verdict (env.read (attestation sel (norm_given (truthy root)) none))

  unfoldable pub verify_attest_state : RecordSelector → Option Text → ChainVerdict
  verify_attest_state o content_root = attest_verdict (record_selector_args o) content_root

  abbrev pub attester_of : Option Answer → Option Text
  attester_of none = none
  attester_of (some res) =
      let id = norm res.attester_id in
      if is_true res.attested && is_lower_hex32 id then some id else none

  unfoldable pub resolve_anchor_attester : Option Text → Option Text → Option Text → Option Text
  resolve_anchor_attester contract_address document_id payload_hash =
      let contract = norm contract_address in
      let document = norm document_id in
      let payload = norm payload_hash in
      if is_empty contract || not (is_lower_hex32 document) || is_empty payload
      then none
      else attester_of (env.read (attestation (by_document contract document payload) none none))

pub data RootState : Type 0 where
  matches mismatch root_unknown : RootState

-- The drift signal: attested first, then the root, then the schema if it was asked for.
abbrev pub root_state_of : Bool → Option Answer → RootState
root_state_of wants_schema none = root_unknown
root_state_of wants_schema (some res) =
    if not (is_true res.attested)
    then root_unknown
    else if is_false res.content_root_ok
    then mismatch
    else if wants_schema && is_false res.schema_ok
    then mismatch
    else matches

module _ (env : Reader) where
  abbrev pub wants_schema : Text → Bool
  wants_schema schema = not (is_empty schema) && env.available schema_id_param

  abbrev pub root_query : SelectorArgs → Text → Text → Query
  root_query sel root schema =
      attestation sel (some root) (if wants_schema schema then some schema else none)

  abbrev pub root_state_for : Option SelectorArgs → Text → Text → RootState
  root_state_for none root schema = root_unknown
  root_state_for (some sel) root schema =
      if is_empty root
      then root_unknown
      else root_state_of (wants_schema schema) (env.read (root_query sel root schema))

  unfoldable pub attest_root_state : RecordSelector → Option Text → Option Text → RootState
  attest_root_state o content_root schema_id =
      root_state_for (record_selector_args o) (norm content_root) (norm schema_id)

pub data GrantOp : Type 0 where
  grant revoke : GrantOp

-- A grant is confirmed once it is active, a revocation once none is.
abbrev pub grant_verdict : GrantOp → Bool → ChainVerdict
grant_verdict grant active = if active then confirmed else unknown
grant_verdict revoke active = if active then unknown else confirmed

abbrev pub grants_read : GrantOp → Option ℕ → ChainVerdict
grants_read op none = unknown
grants_read op (some rows) = grant_verdict op (ltb 0 rows)

abbrev pub grants_after : GrantOp → GrantQuery → Option (GrantQuery → Option ℕ) → ChainVerdict
grants_after op q none = unknown
grants_after op q (some rows) = grants_read op (rows q)

abbrev pub grant_query : Text → Text → Text → Text → GrantQuery
grant_query contract payload grantee attester = record {
  contract_address = contract;
  payload_hash = payload;
  grantee = grantee;
  attester_id = if is_lower_hex32 attester then some attester else none;
}

module _ (env : Reader) where
  unfoldable pub verify_grant_state :
      Option Text → Option Text → Option Text → Option Text → GrantOp → ChainVerdict
  verify_grant_state contract_address payload_hash attester_id grantee op =
      let contract = norm contract_address in
      let payload = norm payload_hash in
      let who = text_or_empty grantee in
      if is_empty contract || is_empty payload || is_empty who
      then unknown
      else grants_after op (grant_query contract payload who (norm attester_id))
          (env.reindex contract)

  abbrev pub bound_param : CrossRootKind → Param
  bound_param document_diff = k_param
  bound_param document_integrity = allowed_mask_param

  -- `norm(o.attesterIdB) || attesterId`, sent only if it is another one
  abbrev pub second_attester : Text → Text → Option Text
  second_attester attester [] = none
  second_attester attester (c ∷ b) = if text_eq (c ∷ b) attester then none else some (c ∷ b)

  unfoldable pub verify_cross_root_state :
      (contract payload_a payload_b attester_a attester_b : Option Text)
      → CrossRootKind
      → ℕ
      → ChainVerdict
  verify_cross_root_state contract_address payload_a payload_b attester_a attester_b kind bound =
      let contract = norm contract_address in
      let a = norm payload_a in
      let b = norm payload_b in
      let attester = norm attester_a in
      if is_empty contract || is_empty a || is_empty b || not (is_lower_hex32 attester)
      then unknown
      else if not (env.available payload_hash_b_param) || not (env.available (bound_param kind))
      then unknown
      else verified_verdict (
          env.read (
            cross_root contract attester a b (second_attester attester (norm attester_b)) kind
              bound))

  abbrev pub claim_query : Text → Text → Text → Option Text → ClaimPredicate → ℕ → Text → Query
  claim_query contract attester payload field set_membership threshold root =
      membership_claim contract attester payload field root
  claim_query contract attester payload field (compares op) threshold root =
      numeric_claim contract attester payload field (compares op) threshold

  -- A membership read needs the plugin's parameter and a root.
  abbrev pub askable : ClaimPredicate → Text → Bool
  askable set_membership root = env.available set_root_param && not (is_empty root)
  askable (compares op) root = true

  unfoldable pub verify_predicate_state :
      (contract payload attester field : Option Text)
      → ClaimPredicate
      → Option ℕ
      → Option Text
      → ChainVerdict
  verify_predicate_state contract_address payload_hash attester_id field_key p threshold set_root =
      let contract = norm contract_address in
      let payload = norm payload_hash in
      let attester = norm attester_id in
      let root = norm set_root in
      if is_empty contract || is_empty payload || not (is_lower_hex32 attester)
      then unknown
      else if not (askable p root)
      then unknown
      else verified_verdict (
          env.read (
            claim_query contract attester payload (norm_given (truthy field_key)) p
              (or_else threshold 0) root))
