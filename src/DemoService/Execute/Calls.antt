-- ===== src/DemoService/Execute/Calls.antt =====
-- The calls of a run.
use nightpass.Base.{
  Bool, true, false, not, ◌&&◌, List, [], ◌∷◌, map, any, Option, none, some, Text, codes, truthy,
  is_some, if◌then◌else◌, Result, ok, err,
}
use nightpass.Base.Acts.{Act, ◌>>=◌, ◌>>◌, return, lift, modify, demand, finally}
use nightpass.Base.JsNumber.{JsNumber}
use nightpass.Base.Splits.{Env}
use nightpass.DemoClaims.Resolved.{ResolvedClaim}
use nightpass.DemoService.{remote_transport, is_set_to}
use nightpass.DemoService.Caps.{
  RunState, wallet, anchoring, proving, aging, publishing, done, failed,
}
use nightpass.DemoService.Polls.{
  RowStatus, PassportRow, TxRow, ProofRow, StepStatus, running, broken, skipped, StepRow, Patch,
  set_steps, mirror,
}
use nightpass.DemoService.Polls.{done as step_done}
use nightpass.DemoService.Execute.{
  register_ownership_enabled, resolved_field, patch, multi_claim, prove_kind, initial_steps,
  proof_succeeded, proofs_done, registration_hash, is_anchored, second_life_hash,
}

pub data RunError : Type 0 where
  thrown : Text → RunError
  sponsor_unavailable : (sponsor : Text) (error : Option Text) → RunError
  create_mode prove_mode proofs_failed : RunError
  anchor_ended : RowStatus → RunError

-- What the calls answer; a throw is `err` with its message. A mode is given as whether it is the one
-- that is expected.
pub record Answers : Type 0 where
  -- whether `patchRun` throws for the state
  pub store : RunState → Option Text
  -- prewarmServerWallet: whether its state is 'error', and the error
  pub warm : Result Text (Bool × Option Text)
  -- the tester's row and its decrypted seed, its viewing key; connectWallet
  pub seed : Result Text Text
  pub viewing_key : Result Text Text
  pub connect : Result Text Text
  -- connectWalletForSigning: whether there is a job to wait for; the wait
  pub signing : Result Text Bool
  pub synced : Result Text (Unit {0})
  -- deriveWalletInfo's attesterId, serverWalletSession, registerPassport, its job's hash
  pub derived : Result Text (Option Text)
  pub registrar_session : Result Text Text
  pub registration : Result Text Text
  pub registered : Result Text Text
  -- createPassport, and pollAnchor with the transactions of each of its polls
  pub created : Result Text Bool
  pub anchor_txs : List (List TxRow)
  pub anchor : Result Text PassportRow
  -- provePassportValuesBatch, and all polls of its proofs
  pub proven : Result Text Bool
  pub proofs : Result Text (List ProofRow)
  -- triggerBmsTelemetry, changeBatteryStatus, pollReanchor
  pub telemetry : Result Text (Unit {0})
  pub repurposed : Result Text Bool
  pub reanchor : Result Text PassportRow
  -- publishPassport: whether it is published
  pub published : Result Text Bool

-- What a run changes. `signer` says whether the seed is registered with the remote lane, `session` is a
-- session that is open; `writes` are the states the row has had, the last one first.
pub record Progress : Type 0 where
  pub writes : List RunState
  pub steps : List StepRow
  pub signer : Bool
  pub session : Option Text

abbrev pub RunAct : Type 0 → Type 0
RunAct = Act Progress RunError

abbrev pub calls : {A : Type 0} → Result Text A → RunAct A
calls (ok a) = return a
calls (err e) = lift (err (thrown e))

abbrev pub set_all : List Patch → RunAct (Unit {0})
set_all ps = modify (λ s. record s { steps = set_steps ps s.steps })

abbrev pub set_one : Text → StepStatus → Option Text → RunAct (Unit {0})
set_one kind status hash = set_all (patch kind status hash ∷ [])

-- `mirror` over the polls of pollAnchor.
unfoldable pub mirror_polls : List (List TxRow) → List Text × List StepRow → List StepRow
unfolding mirror
mirror_polls [] at_hand = at_hand.1
mirror_polls (txs ∷ polls) at_hand = mirror_polls polls (mirror txs at_hand)

-- The step after an inner `try`, whose error is not thrown on.
abbrev pub settle : Text → Result Text (Option Text) → RunAct (Unit {0})
settle kind (ok hash) = set_one kind step_done hash
settle kind (err e) = set_one kind broken none

abbrev pub with_hash : Result Text Text → Result Text (Option Text)
with_hash (ok h) = ok (some h)
with_hash (err e) = err e

abbrev pub or_false : Result Text Bool → Bool
or_false (ok b) = b
or_false (err e) = false

-- The write of a state, which throws or not.
abbrev pub write_state : RunState → Option Text → RunAct (Unit {0})
write_state state none = modify (λ s. record s { writes = state ∷ s.writes })
write_state state (some e) = lift (err (thrown e))

module _ (env : Env) (shown : JsNumber → Text) (a : Answers) where
  -- `patchRun(runId, { state })`
  abbrev pub to_state : RunState → RunAct (Unit {0})
  to_state state = write_state state (a.store state)

  unfoldable pub warm_sponsor : Option Text → RunAct (Unit {0})
  warm_sponsor none = return tt
  warm_sponsor (some sponsor) = do
    state ← calls a.warm
    demand (not state.0) (sponsor_unavailable sponsor (truthy state.1))

  -- Up to `try`.
  unfoldable pub open_session : RunAct (Unit {0})
  unfolding remote_transport
  open_session = do
    seed ← calls a.seed
    if remote_transport env then modify (λ s. record s { signer = true }) else (do
      key ← calls a.viewing_key
      session ← calls a.connect
      modify (λ s. record s { session = some session }))

  abbrev pub skip_sync : Bool
  skip_sync = is_set_to env (codes "NIGHTGATE_SPONSORED_CALLER_SYNC") (codes "skip")

  unfoldable pub sync_wallet : RunAct (Unit {0})
  unfolding remote_transport
  sync_wallet =
      if remote_transport env
      then return tt
      else (do job ← calls a.signing; if job && not skip_sync then calls a.synced else return tt)

  unfoldable pub register_ownership : RunAct (Unit {0})
  unfolding remote_transport register_ownership_enabled registration_hash set_steps
  register_ownership =
      if register_ownership_enabled env && not (remote_transport env)
      then (do
        set_one (codes "registerPassport") running none
        settle (codes "registerPassport") (
            with_hash
              (registration_hash env a.derived a.registrar_session a.registration a.registered)))
      else return tt

  unfoldable pub anchor_passport : RunAct (Unit {0})
  unfolding set_steps mirror_polls
  anchor_passport = do
    to_state anchoring
    set_one (codes "attest") running none
    mode ← calls a.created
    demand mode create_mode
    modify (λ s. record s { steps = mirror_polls a.anchor_txs ([], s.steps) })
    row ← calls a.anchor
    demand (is_anchored row) (anchor_ended row.status)

  unfoldable pub prove_claims : List ResolvedClaim → RunAct (Unit {0})
  unfolding set_steps proofs_done
  prove_claims claims = do
    to_state proving
    set_all
        (map (λ c. patch (prove_kind (multi_claim claims) (resolved_field c)) running none) claims)
    mode ← calls a.proven
    demand mode prove_mode
    proofs ← calls a.proofs
    demand (any proof_succeeded proofs) proofs_failed
    set_all (proofs_done claims proofs)

  unfoldable pub second_life : Bool → RunAct (Unit {0})
  unfolding set_steps second_life_hash
  second_life wanted =
      if wanted
      then (do
        to_state aging
        set_one (codes "secondLife") running none
        settle (codes "secondLife") (second_life_hash a.telemetry a.repurposed a.reanchor))
      else return tt

  unfoldable pub publish : RunAct (Unit {0})
  unfolding set_steps
  publish = do
    to_state publishing
    if is_some (truthy (env (codes "PASSPORT_PUBLISH_URL")))
        then (do
          set_one (codes "publish") running none
          set_one (codes "publish") (if or_false a.published then step_done else broken) none)
        else set_one (codes "publish") skipped none

  -- The `finally`: the signer is released, or the session disconnected.
  abbrev pub close : Progress → Progress
  close s = record s { signer = false; session = none }

  -- The block of `try`.
  unfoldable pub run_body : Bool → List ResolvedClaim → RunAct (Unit {0})
  unfolding sync_wallet register_ownership anchor_passport prove_claims second_life publish
      set_steps
  run_body wants_second_life claims = do
    sync_wallet
    set_one (codes "sync") step_done none
    register_ownership
    anchor_passport
    prove_claims claims
    second_life wants_second_life
    publish
    to_state done

  unfoldable pub execute_run : Option Text → Bool → List ResolvedClaim → RunAct (Unit {0})
  unfolding warm_sponsor open_session run_body set_steps
  execute_run sponsor wants_second_life claims = do
    warm_sponsor sponsor
    to_state wallet
    set_one (codes "sync") running none
    open_session
    finally (run_body wants_second_life claims) close

  -- The row's states after the run and the `catch` of processQueue, which is best effort too.
  abbrev pub fail_if : Result RunError (Unit {0}) × Progress → List RunState
  fail_if (ok u, s) = s.writes
  fail_if (err e, s) = (to_state failed s).1.writes

  unfoldable pub run_states : Option Text → Bool → List ResolvedClaim → List RunState
  unfolding execute_run initial_steps
  run_states sponsor wants_second_life claims = fail_if (
      execute_run sponsor wants_second_life claims (record {
        writes = [];
        steps = initial_steps shown env wants_second_life claims;
        signer = false;
        session = none;
      }))
