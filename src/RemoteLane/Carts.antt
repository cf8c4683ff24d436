-- ===== src/RemoteLane/Carts.antt =====
-- The proof cart of the lane (submitProofCart, prepareClaim). The membership sets and the digests are
-- parameters; the default expiry is what claimValidUntil gives.
use nightpass.Base.{
  ℕ, ◌≡◌, refl, Bool, true, ◌||◌, List, [], ◌∷◌, ◌++◌, Option, none, some, Text, codes, lower,
  truthy, or_else, Result, ok, err, ◌>>=◌, >>=-inv, length,
}
use nightpass.Base.Patterns.{contains}
use nightpass.ProofPlan.{Op, less_or_equal, greater_or_equal}
use nightpass.ChainLane.{
  LaneTx, CartClaimArgs, numeric, member, ProofCartInput, ProofCartOutcome, ProofCartError,
}
use nightpass.RemoteLane.Sponsoring.{
  LaneError, plain_error, PreparedCall, prepare_anchor_content_root, prepare_prove_field_predicate,
  prepare_prove_field_membership, Batch, Sponsor, build_and_sponsor,
}

pub record SetPath : Type 0 where
  pub set_siblings : List Text
  pub set_dirs : List Bool

-- An allow-list as it is committed to: its root, and the path of a value that is in it.
pub record MembershipSet : Type 0 where
  pub set_root : Text
  pub proof_for : Text → Option SetPath

abbrev pub op_number : Op → ℕ
op_number less_or_equal = 0
op_number greater_or_equal = 1

module _ (build_set : List Text → Result LaneError MembershipSet) (blake2b256_hex : Text → Text)
    (record_key_of : Text → Text → Text) (own_attester : Text) (default_expiry : ℕ) where
  abbrev pub member_call :
      Text
      → ℕ
      → (field_key value salt : Text) → List Text
      → List Bool
      → MembershipSet
      → Option SetPath
      → Result LaneError PreparedCall
  member_call key until field_key value salt siblings dirs set none =
      err (plain_error (codes "remote lane: '" ++ (value ++ codes "' is not in the allow-list")))
  member_call key until field_key value salt siblings dirs set (some path) = ok (
      prepare_prove_field_membership key until field_key set.set_root (blake2b256_hex value) salt
        siblings dirs path.set_siblings path.set_dirs)

  unfoldable pub prepare_claim : Text → ℕ → CartClaimArgs → Result LaneError PreparedCall
  prepare_claim key until (numeric field_key value salt siblings dirs op threshold unit) = ok (
      prepare_prove_field_predicate key until field_key threshold (op_number op) value salt siblings
        dirs)
  prepare_claim key until (member field_key value allowed salt siblings dirs) =
      build_set allowed >>= λ set.
      member_call key until field_key value salt siblings dirs set (set.proof_for value)

  unfoldable pub prepare_claims :
      Text → ℕ → List CartClaimArgs → Result LaneError (List PreparedCall)
  unfolding prepare_claim
  prepare_claims key until [] = ok []
  prepare_claims key until (c ∷ cs) = prepare_claim key until c >>= λ call.
      prepare_claims key until cs >>= λ calls. ok (call ∷ calls)

  abbrev pub root_prefix :
      ProofCartInput → Option Text → Option Text → Result LaneError (List PreparedCall)
  root_prefix input none schema = ok []
  root_prefix input (some root) none =
      err (plain_error (codes "remote lane: an in-batch root anchor needs schemaId"))
  root_prefix input (some root) (some schema) =
      ok (prepare_anchor_content_root input.payload_hash root schema ∷ [])

  -- The calls of the transaction, in order.
  unfoldable pub cart_calls : ProofCartInput → Result LaneError (List PreparedCall)
  unfolding prepare_claims
  cart_calls input =
      root_prefix input (truthy input.content_root) (truthy input.schema_id) >>= λ prefix.
      prepare_claims (record_key_of (or_else input.attester_id own_attester) input.payload_hash)
        (or_else input.valid_until default_expiry) input.claims
      >>= λ calls. ok (prefix ++ calls)

  abbrev pub cart_batch : ProofCartInput → Batch
  cart_batch input = record {
    independent_calls = true;
    ordered_prefix = elim (truthy input.content_root) [ none ↦ 0 | some root ↦ 1 ];
  }

  -- /OnChainStatus|PARTIAL/i
  abbrev pub is_partial : Text → Bool
  is_partial s = contains (codes "onchainstatus") (lower s) || contains (codes "partial") (lower s)

  abbrev pub cart_error : Text × LaneError → ProofCartError
  cart_error (message, cause) = record {
    message = message;
    partial = is_partial (message ++ (codes " " ++ cause.job_code));
    job_id = cause.job_id;
    claim_ids = [];
  }

  abbrev pub cart_outcome :
      Result (Text × LaneError) LaneTx → Result ProofCartError ProofCartOutcome
  cart_outcome (ok tx) = ok (record { tx = tx; claim_ids = [] })
  cart_outcome (err e) = err (cart_error e)

  unfoldable pub submit_proof_cart :
      Sponsor → ProofCartInput → Result ProofCartError ProofCartOutcome
  unfolding build_and_sponsor contains lower
  submit_proof_cart net input = cart_outcome (
      build_and_sponsor net (codes "proof cart") input.contract_address (λ n. cart_calls input)
        (cart_batch input))

  -- The call proves the claim: its own field, on the record and until the expiry.
  abbrev pub Proves : Text → ℕ → CartClaimArgs → PreparedCall → Type 0
  Proves key until (numeric field_key value salt siblings dirs op threshold unit) call =
      call
      ≡ prepare_prove_field_predicate key until field_key threshold (op_number op) value salt
          siblings dirs
  Proves key until (member field_key value allowed salt siblings dirs) call =
      (set : MembershipSet) × (path : SetPath) × (build_set allowed ≡ ok set)
      × (set.proof_for value ≡ some path)
      × (call
          ≡ prepare_prove_field_membership key until field_key set.set_root (blake2b256_hex value)
              salt siblings dirs path.set_siblings path.set_dirs)

  -- One call for each claim, in order.
  abbrev pub ProvesAll : Text → ℕ → List CartClaimArgs → List PreparedCall → Type 0
  ProvesAll key until [] [] = Unit
  ProvesAll key until (c ∷ cs) (call ∷ calls) =
      Proves key until c call × ProvesAll key until cs calls
  ProvesAll key until _ _ = ⊥

  member_call-ok :
      (key : Text) (until : ℕ) (field_key value salt : Text) (siblings : List Text)
      (dirs : List Bool) (set : MembershipSet) (o : Option SetPath) (call : PreparedCall)
      → member_call key until field_key value salt siblings dirs set o ≡ ok call
      → (path : SetPath) × (o ≡ some path)
        × (call
            ≡ prepare_prove_field_membership key until field_key set.set_root
                (blake2b256_hex value)
                salt
                siblings
                dirs
                path.set_siblings
                path.set_dirs)
  member_call-ok key until f v salt s d set none call h = absurd (cc)
  member_call-ok key until f v salt s d set (some path) call h = (path, refl, cc)

  prepare_claim-Proves :
      (key : Text) (until : ℕ) (c : CartClaimArgs) (call : PreparedCall)
      → prepare_claim key until c ≡ ok call
      → Proves key until c call
  unfolding prepare_claim
  prepare_claim-Proves key until (numeric f v salt s d op t unit) call h = cc
  prepare_claim-Proves key until (member f v allowed salt s d) call h =
      let (set, built, h') = >>=-inv (build_set allowed) _ h in
      let (path, found, same) =
        member_call-ok key until f v salt s d set (set.proof_for v) call h' in
      (set, path, built, found, same)

  prepare_claims-ProvesAll :
      (key : Text) (until : ℕ) (cs : List CartClaimArgs) (calls : List PreparedCall)
      → prepare_claims key until cs ≡ ok calls
      → ProvesAll key until cs calls
  unfolding prepare_claims
  prepare_claims-ProvesAll key until [] calls h = let same : [] ≡ calls = cc in rw (← same) tt
  prepare_claims-ProvesAll key until (c ∷ cs) calls h =
      let (call, here, h') = >>=-inv (prepare_claim key until c) _ h in
      let (rest, later, h'') = >>=-inv (prepare_claims key until cs) _ h' in
      let same : call ∷ rest ≡ calls = cc in
      rw (← same) (
        prepare_claim-Proves key until c call here,
        prepare_claims-ProvesAll key until cs rest later,
      )

  -- The calls of a cart are the anchor of the root, exactly if one is given, and then one call for each
  -- claim in order: on the record of the attester that is given or of the lane's own, until the expiry
  -- that is given or the default; a membership call only for a value of the allow-list.
  pub cart_calls-ProvesAll :
      (input : ProofCartInput) (calls : List PreparedCall)
      → cart_calls input ≡ ok calls
      → (prefix proofs : List PreparedCall) × (root_prefix input
            (truthy input.content_root)
            (truthy input.schema_id)
          ≡ ok prefix)
        × (length prefix ≡ (cart_batch input).ordered_prefix)
        × (calls ≡ prefix ++ proofs)
        × ProvesAll
            (record_key_of (or_else input.attester_id own_attester) input.payload_hash)
            (or_else input.valid_until default_expiry)
            input.claims
            proofs
  unfolding cart_calls
  cart_calls-ProvesAll input calls h =
      let (prefix, led, h') =
        >>=-inv (root_prefix input (truthy input.content_root) (truthy input.schema_id)) _ h in
      let (proofs, made, h'') =
        >>=-inv
          (prepare_claims
            (record_key_of (or_else input.attester_id own_attester) input.payload_hash)
            (or_else input.valid_until default_expiry) input.claims)
          _ h' in
      (
        prefix,
        proofs,
        led,
        prefix_length (truthy input.content_root) (truthy input.schema_id) prefix led,
        cc,
        prepare_claims-ProvesAll _ _ input.claims proofs made,
      )
    where
      prefix_length :
          (root schema : Option Text) (prefix : List PreparedCall)
          → root_prefix input root schema ≡ ok prefix
          → length prefix ≡ elim root [ none ↦ 0 | some r ↦ 1 ]
      prefix_length none schema prefix led = let same : [] ≡ prefix = cc in rw (← same) refl
      prefix_length (some root) none prefix led = absurd (cc)
      prefix_length (some root) (some schema) prefix led =
          let same : prepare_anchor_content_root input.payload_hash root schema ∷ [] ≡ prefix =
            cc in
          rw (← same) refl
