-- ===== src/PassportAnchor/Anchoring/Outcome.antt =====
-- What an anchor that succeeds has done, and one that fails.
use nightpass.Base.{◌≡◌, refl, List, [], ◌∷◌, map, Text, Result, ok, err, Bool-cases, inl, inr, ◌⊎◌}
use nightpass.AnchorPlan.{AnchorTx, PlanError, anchor_tx_plan}
use nightpass.AnchorPlan.Shape.{anchor_tx_plan-IsAnchor}
use nightpass.ChainLane.{LaneTx, AnchorTxInput}
use nightpass.PassportAnchor.Anchoring.{
  AnchorStep, AnchorOpts, AnchorError, step_of, submit_all, plan_input, lacks_schema, submit_plan,
  anchor_passport,
}

module _ (blake : Text → Text) (submit : AnchorTxInput → Result Text LaneTx) where
  abbrev input_of : Text → AnchorTx → AnchorTxInput
  input_of contract tx = record { contract_address = contract; tx = tx }

  Result-cases :
      (r : Result Text LaneTx) → ((t : LaneTx) × (r ≡ ok t)) ⊎ ((msg : Text) × (r ≡ err msg))
  Result-cases (ok t) = inl (t, refl)
  Result-cases (err e) = inr (e, refl)

  Plan-cases :
      (r : Result PlanError (List AnchorTx))
      → ((t : List AnchorTx) × (r ≡ ok t)) ⊎ ((e : PlanError) × (r ≡ err e))
  Plan-cases (ok t) = inl (t, refl)
  Plan-cases (err e) = inr (e, refl)

  -- The lane took this transaction, and its calls were reported with what the lane answered.
  pub record Sent (contract : Text) (tx : AnchorTx) (steps : List AnchorStep) (hash : Text)
      : Type 0 where
    pub sent : LaneTx
    pub taken : submit (input_of contract tx) ≡ ok sent
    pub reported : steps ≡ map (step_of blake submit sent) tx.calls
    pub first_hash : hash ≡ sent.tx_hash

  submit_one-err :
      (contract : Text) (tx : AnchorTx) (steps : List AnchorStep) (e : AnchorError)
      → submit_all blake submit contract (tx ∷ []) [] [] ≡ (steps, err e)
      → steps ≡ []
  unfolding submit_all
  submit_one-err contract tx steps e h = elim (Result-cases (submit (input_of contract tx))) [
    | inr (msg, f) ↦ cc (rw (f, submit_all) at h)
    | inl (t, f) ↦ absurd (cc (rw (f, submit_all) at h))
  ]

  module _ (o : AnchorOpts) (steps : List AnchorStep) where
    planned-err :
        (e : AnchorError)
        → submit_plan blake submit o.contract_address (anchor_tx_plan (plan_input blake submit o))
          ≡ (steps, err e)
        → steps ≡ []
    planned-err e h = elim (Plan-cases (anchor_tx_plan (plan_input blake submit o))) [
      | inr (x, f) ↦ cc (rw f at h)
      | inl (txs, f) ↦
          let (tx, only, anchor) = anchor_tx_plan-IsAnchor (plan_input blake submit o) txs f in
          submit_one-err o.contract_address tx steps e (rw only at (rw f at h))
    ]

  -- An anchor that fails has reported no step.
  pub anchor_passport-err :
      (o : AnchorOpts) (steps : List AnchorStep) (e : AnchorError)
      → anchor_passport blake submit o ≡ (steps, err e)
      → steps ≡ []
  unfolding anchor_passport
  anchor_passport-err o steps e h = elim (Bool-cases (lacks_schema blake submit o)) [
    | inl lacking ↦ cc (rw lacking at h)
    | inr fine ↦ planned-err o steps e (rw fine at h)
  ]
