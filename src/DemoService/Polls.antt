-- ===== src/DemoService/Polls.antt =====
-- The loops that wait for a row (pollAnchor, pollReanchor, pollProof) and the timeline of a run. A
-- poll is a function of its number: it throws, or finds a row that ends the loop, or none. `clock` is
-- the time after each poll.
pub mod Ending
use nightpass.Base.{
  ℕ, zero, suc, ◌+◌, ◌*◌, Bool, true, false, not, ◌&&◌, ◌||◌, List, [], ◌∷◌, ◌++◌, any, find,
  Option, none, some, is_some, Text, codes, text_eq, truthy, ltb, if◌then◌else◌, Result, ok, err,
}

pub data PollError : Type 0 where
  query_failed : Text → PollError
  timed_out out_of_fuel : PollError

-- `for (;;)` from poll `i` on, for at most `fuel` polls.
unfoldable pub poll_from :
    {A : Type 0} → (ℕ → Result Text (Option A)) → (ℕ → ℕ) → ℕ → ℕ → ℕ → Result PollError A
poll_from polls clock deadline zero i = err out_of_fuel
poll_from polls clock deadline (suc fuel) i =
    let later = poll_from polls clock deadline fuel (suc i) in
    elim (polls i) [
      | err e ↦ err (query_failed e)
      | ok o ↦ elim o [
        | some row ↦ ok row
        | none ↦ if ltb deadline (clock i) then err timed_out else later
      ]
    ]

-- With a budget in polls of five seconds; the loop starts at time `start`.
unfoldable pub poll :
    {A : Type 0} → ℕ → (ℕ → Result Text (Option A)) → (ℕ → ℕ) → ℕ → Result PollError A
unfolding poll_from
poll rounds polls clock start = poll_from polls clock (start + 5000 * rounds) (suc rounds) 0

pub data RowStatus : Type 0 where
  draft anchoring anchored failed : RowStatus

-- A row of Passports, as far as it is read.
pub record PassportRow : Type 0 where
  pub status : RowStatus
  pub attestation_tx_hash : Option Text

abbrev pub settled : Option PassportRow → Option PassportRow
settled none = none
settled (some row) = elim row.status [ anchored ↦ some row | failed ↦ some row | _ ↦ none ]

pub data ProofStatus : Type 0 where
  pending succeeded failed_proof : ProofStatus

-- A row of PredicateProofLog.
pub record ProofRow : Type 0 where
  pub status : ProofStatus
  pub tx_hash : Option Text
  pub source_field : Option Text

abbrev pub finished_proof : Option ProofRow → Option ProofRow
finished_proof none = none
finished_proof (some row) = elim row.status [ pending ↦ none | _ ↦ some row ]

abbrev pub seen_by :
    {A : Type 0} → (Option A → Option A) → Result Text (Option A) → Result Text (Option A)
seen_by f (err e) = err e
seen_by f (ok o) = ok (f o)

-- The status of the passport: twenty minutes, and ten.
unfoldable pub poll_anchor :
    (ℕ → Result Text (Option PassportRow)) → (ℕ → ℕ) → ℕ → Result PollError PassportRow
unfolding poll
poll_anchor rows = poll 240 (λ i. seen_by settled (rows i))

unfoldable pub poll_reanchor :
    (ℕ → Result Text (Option PassportRow)) → (ℕ → ℕ) → ℕ → Result PollError PassportRow
unfolding poll
poll_reanchor rows = poll 120 (λ i. seen_by settled (rows i))

-- `(10 + 5 * Math.max(0, n - 1)) * 60_000` is 120 polls and 60 for each further proof.
unfoldable pub poll_proof :
    ℕ → (ℕ → Result Text (Option ProofRow)) → (ℕ → ℕ) → ℕ → Result PollError ProofRow
unfolding poll
poll_proof rounds rows = poll rounds (λ i. seen_by finished_proof (rows i))

-- A step of the timeline.
pub data StepStatus : Type 0 where
  waiting running done broken skipped : StepStatus

pub record StepRow : Type 0 where
  pub kind : Text
  pub label : Text
  pub status : StepStatus
  pub tx_hash : Option Text

-- A patch of a step: its status, and a hash (with its link) if it has one.
pub record Patch : Type 0 where
  pub kind : Text
  pub status : StepStatus
  pub tx_hash : Option Text

abbrev pub assign : Patch → StepRow → StepRow
assign p s = record s {
  status = p.status;
  tx_hash = elim p.tx_hash [ none ↦ s.tx_hash | some h ↦ some h ];
}

-- `Object.assign(steps.find(...), patch)`
unfoldable pub set_step : Patch → List StepRow → List StepRow
set_step p [] = []
set_step p (s ∷ steps) =
    let rest = set_step p steps in if text_eq s.kind p.kind then assign p s ∷ steps else s ∷ rest

unfoldable pub set_steps : List Patch → List StepRow → List StepRow
unfolding set_step
set_steps [] steps = steps
set_steps (p ∷ ps) steps = set_steps ps (set_step p steps)

-- A row of PassportTransactions.
pub record TxRow : Type 0 where
  pub kind : Text
  pub tx_hash : Option Text
  pub succeeded : Bool

abbrev pub anchor_order : List Text
anchor_order = codes "attest" ∷ codes "anchorContentRoot" ∷ codes "bindDocument" ∷ []

-- The next pending anchor step runs.
abbrev pub run_next : List Text → List StepRow → List StepRow
run_next seen steps = elim (find (λ k. not (any (text_eq k) seen)) anchor_order) [
  | none ↦ steps
  | some k ↦ set_step (record { kind = k; status = running; tx_hash = none }) steps
]

-- The kinds seen and the timeline after the rows of one poll.
unfoldable pub mirror : List TxRow → List Text × List StepRow → List Text × List StepRow
unfolding set_step text_eq
mirror [] at_hand = at_hand
mirror (t ∷ ts) at_hand = mirror ts (
    if t.succeeded && is_some (truthy t.tx_hash) && not (any (text_eq t.kind) at_hand.0)
    then (
      at_hand.0 ++ (t.kind ∷ []),
      run_next (at_hand.0 ++ (t.kind ∷ []))
          (set_step (record { kind = t.kind; status = done; tx_hash = t.tx_hash }) at_hand.1),
    )
    else at_hand)
