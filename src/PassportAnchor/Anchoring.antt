-- ===== src/PassportAnchor/Anchoring.antt =====
-- The anchor sequence (anchorPassport) over a lane, whose `submitAnchorTx` is a parameter. What
-- `onStep` is called with is collected in order.
pub mod Outcome
mod Tests
use nightpass.Base.{
  List, [], ◌∷◌, ◌++◌, map, Option, none, some, Bool, true, false, Text, codes, truthy, is_empty,
  if◌then◌else◌, Result, ok, err,
}
use nightpass.AnchorPlan.{Circuit, AnchorCall, AnchorTx, AnchorPlanInput, PlanError, anchor_tx_plan}
use nightpass.ChainLane.{LaneTx, AnchorTxInput}

pub record AnchorStep : Type 0 where
  pub kind : Circuit
  pub job_id : Text
  pub tx_hash : Text

pub record AnchorOpts : Type 0 where
  pub payload_hash : Text
  pub passport_id : Text
  pub passport_id_hash : Text
  pub contract_address : Text
  pub content_root : Option Text
  pub schema_id : Option Text

pub data AnchorError : Type 0 where
  schema_id_required : AnchorError
  bad_plan : PlanError → AnchorError
  lane_failed : Text → AnchorError

-- The digest of the SDK, and the lane.
module _ (blake2b256_hex : Text → Text) (submit : AnchorTxInput → Result Text LaneTx) where
  abbrev pub step_of : LaneTx → AnchorCall → AnchorStep
  step_of tx c = record { kind = c.circuit; job_id = tx.job_id; tx_hash = tx.tx_hash }

  -- The loop over the transactions: the steps reported so far, and the first hash or an error.
  unfoldable pub submit_all :
      Text → List AnchorTx → Text → List AnchorStep → List AnchorStep × Result AnchorError Text
  submit_all contract [] hash steps = (steps, ok hash)
  submit_all contract (tx ∷ txs) hash steps =
      elim (submit (record { contract_address = contract; tx = tx })) [
        | err msg ↦ (steps, err (lane_failed msg))
        | ok sent ↦
            submit_all contract txs (if is_empty hash then sent.tx_hash else hash)
              (steps ++ map (step_of sent) tx.calls)
      ]

  abbrev pub plan_input : AnchorOpts → AnchorPlanInput
  plan_input o = record {
    payload_hash = o.payload_hash;
    metadata_hash = blake2b256_hex (codes "passport://" ++ o.passport_id);
    passport_id_hash = o.passport_id_hash;
    content_root = truthy o.content_root;
    schema_id = elim (truthy o.content_root) [ none ↦ none | some root ↦ o.schema_id ];
  }

  abbrev pub lacks_schema : AnchorOpts → Bool
  lacks_schema o = elim (truthy o.content_root) [
    | none ↦ false
    | some root ↦ elim (truthy o.schema_id) [ none ↦ true | some s ↦ false ]
  ]

  abbrev pub submit_plan :
      Text → Result PlanError (List AnchorTx) → List AnchorStep × Result AnchorError Text
  submit_plan contract (err e) = ([], err (bad_plan e))
  submit_plan contract (ok txs) = submit_all contract txs [] []

  unfoldable pub anchor_passport : AnchorOpts → List AnchorStep × Result AnchorError Text
  anchor_passport o =
      if lacks_schema o
      then ([], err schema_id_required)
      else submit_plan o.contract_address (anchor_tx_plan (plan_input o))
