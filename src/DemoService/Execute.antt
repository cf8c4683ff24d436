-- ===== src/DemoService/Execute.antt =====
-- A run (executeRun): its calls in order, the timeline and the states of its row. What a call answers is
-- a parameter. The timeline is the array in memory, whose writes may be lost; numbers are shown as text
-- by a parameter.
pub mod Calls
pub mod Outcome
use nightpass.Base.{
  ℕ, suc, Bool, true, false, not, ◌&&◌, List, [], ◌∷◌, ◌++◌, map, filter, find, get_elem?, length,
  ◌||◌, Option, none, some, Text, codes, text_eq, text_or_empty, truthy, lower, ltb, is_some,
  if◌then◌else◌, Result, ok, err, ◌>>=◌, ◌>>◌, require,
}
use nightpass.Base.JsNumber.{JsNumber}
use nightpass.Base.Splits.{Env}
use nightpass.ProofPlan.{Op, less_or_equal, greater_or_equal}
use nightpass.ProducerWallets.{producer_wallet_secrets}
use nightpass.DemoClaims.Resolved.{ResolvedClaim, resolved_number, resolved_member}
use nightpass.DemoService.{remote_transport, is_set_to}
use nightpass.DemoService.Polls.{
  RowStatus, PassportRow, anchored, ProofRow, ProofStatus, pending, succeeded, failed_proof,
  StepStatus, waiting, running, done, broken, StepRow, Patch,
}

-- /^(true|1|yes|on)$/i
unfoldable pub register_ownership_enabled : Env → Bool
unfolding lower text_eq
register_ownership_enabled env =
    let given = lower (text_or_empty (env (codes "DEMO_REGISTER_OWNERSHIP"))) in
    text_eq given (codes "true")
    || text_eq given (codes "1")
    || text_eq given (codes "yes")
    || text_eq given (codes "on")

abbrev pub resolved_field : ResolvedClaim → Text
resolved_field (resolved_number field v t direction unit label) = field
resolved_field (resolved_member field member id set_label label) = field

abbrev pub bound_text : Op → Text
bound_text less_or_equal = codes "at most "
bound_text _ = codes "at least "

abbrev pub step_row : Text → Text → StepRow
step_row kind label = record { kind = kind; label = label; status = waiting; tx_hash = none }

abbrev pub patch : Text → StepStatus → Option Text → Patch
patch kind status tx_hash = record { kind = kind; status = status; tx_hash = tx_hash }

-- `multiClaim ? `prove:${field}` : 'provePredicate'`
abbrev pub multi_claim : List ResolvedClaim → Bool
multi_claim claims = ltb 1 (length claims)

abbrev pub prove_kind : Bool → Text → Text
prove_kind multi field = if multi then codes "prove:" ++ field else codes "provePredicate"

module _ (shown : JsNumber → Text) where
  -- The public statement of a claim.
  unfoldable pub statement : ResolvedClaim → Text
  unfolding lower
  statement (resolved_number field v t direction unit label) =
      label ++ (codes ": " ++ (bound_text direction ++ (shown t ++ (b' ' ∷ unit))))
  statement (resolved_member field member id set_label label) =
      label ++ (codes ": one of the " ++ lower set_label)

  abbrev pub single_label : List ResolvedClaim → Text
  single_label [] = codes "ZK-prove the primary claim"
  single_label (c ∷ cs) = codes "ZK-prove " ++ statement c

  unfoldable pub claim_steps : List ResolvedClaim → List StepRow
  unfolding statement
  claim_steps claims =
      if multi_claim claims
      then map (λ c. step_row (prove_kind true (resolved_field c)) (statement c)) claims
      else step_row (codes "provePredicate") (single_label claims) ∷ []

  unfoldable pub initial_steps : Env → Bool → List ResolvedClaim → List StepRow
  unfolding claim_steps remote_transport register_ownership_enabled
  initial_steps env second_life claims =
      (step_row (codes "sync") (
          if remote_transport env
          then codes "Create passport & derive keys"
          else codes "Create passport & sync wallet")
        ∷ [])
      ++ (if register_ownership_enabled env && not (remote_transport env)
          then step_row (codes "registerPassport") (codes "Register passport ownership") ∷ []
          else [])
      ++ (step_row (codes "attest") (codes "Anchor the fingerprint (attest)")
          ∷ step_row (codes "anchorContentRoot") (codes "Anchor the salted field tree root")
          ∷ step_row (codes "bindDocument") (codes "Bind the passport id to the fingerprint")
          ∷ [])
      ++ claim_steps claims
      ++ (if second_life
          then step_row (codes "secondLife") (codes "Second life: age & repurpose (version 2)") ∷ []
          else [])
      ++ (step_row (codes "publish") (codes "Publish to the public explorer") ∷ [])

abbrev pub proof_succeeded : ProofRow → Bool
proof_succeeded p = elim p.status [ succeeded ↦ true | _ ↦ false ]

abbrev pub is_of : Text → ProofRow → Bool
is_of field p = elim p.source_field [ none ↦ false | some f ↦ text_eq f field ]

-- `proofs.find((x) => x.sourceField === c.field) ?? proofs[i]`
abbrev pub found_or_at : Option ProofRow → Option ProofRow → Option ProofRow
found_or_at none at_index = at_index
found_or_at (some p) at_index = some p

abbrev pub proof_for : List ProofRow → Text → ℕ → Option ProofRow
proof_for proofs field i = found_or_at (find (is_of field) proofs) (get_elem? proofs i)

abbrev pub proof_patch : Text → Option ProofRow → Patch
proof_patch field none = patch (prove_kind true field) broken none
proof_patch field (some p) =
    patch (prove_kind true field) (if proof_succeeded p then done else broken) (truthy p.tx_hash)

-- From claim `i` on.
unfoldable pub proof_patches : List ProofRow → List ResolvedClaim → ℕ → List Patch
unfolding text_eq
proof_patches proofs [] i = []
proof_patches proofs (c ∷ cs) i =
    proof_patch (resolved_field c) (proof_for proofs (resolved_field c) i)
    ∷ proof_patches proofs cs (suc i)

abbrev pub first_hash : List ProofRow → Option Text
first_hash [] = none
first_hash (p ∷ ps) = p.tx_hash

-- The patches after the proofs, of which at least one succeeded.
unfoldable pub proofs_done : List ResolvedClaim → List ProofRow → List Patch
unfolding proof_patches
proofs_done claims proofs =
    if multi_claim claims
    then proof_patches proofs claims 0
    else patch (codes "provePredicate") done (first_hash (filter proof_succeeded proofs)) ∷ []

-- The calls that register the ownership, to the hash of the transaction: the attester's id, the
-- registrar's session, the job and its end.
unfoldable pub registration_hash :
    Env
    → Result Text (Option Text)
    → Result Text Text
    → Result Text Text
    → Result Text Text
    → Result Text Text
unfolding producer_wallet_secrets
registration_hash env derived session job hash = do
  attester ← derived
  require (is_some (truthy attester))
      (codes "plugin lacks deriveWalletInfo.attesterId (NIGHTGATE >= 0.10.1 required)")
  require (is_some (producer_wallet_secrets env (env (codes "PASSPORT_REGISTRAR_WALLET"))))
      (codes "no registrar wallet configured (PASSPORT_REGISTRAR_WALLET / default)")
  require (is_some (truthy (env (codes "PASSPORT_CONTRACT_ADDRESS"))))
      (codes "PASSPORT_CONTRACT_ADDRESS not set")
  session
  job
  hash

abbrev pub is_anchored : PassportRow → Bool
is_anchored row = elim row.status [ anchored ↦ true | _ ↦ false ]

-- The calls of the second life; `repurposed` says whether the mode is 'anchoring'.
unfoldable pub second_life_hash :
    Result Text (Unit {0}) → Result Text Bool → Result Text PassportRow → Result Text (Option Text)
second_life_hash telemetry repurposed reanchor = do
  telemetry
  anchoring ← repurposed
  require anchoring (codes "changeBatteryStatus returned another mode")
  row ← reanchor
  require (is_anchored row) (codes "re-anchor ended otherwise")
  ok row.attestation_tx_hash
