-- ===== src/RemoteLane/Sponsoring.antt =====
-- Building a transaction locally and having it sponsored (isRebuildable, buildAndSponsor and the
-- submissions of RemoteLane). The SDK is a record of parameters; a call that is prepared is what its
-- prepare function is called with. The attestation secret and the pauses are left out.
use nightpass.Base.{
  ℕ, Bool, true, false, ◌||◌, List, [], ◌∷◌, ◌++◌, map, Option, none, some, Text, codes, lower,
  take, get_elem?, or_else, truthy, text_or_empty, ◌==◌, Result, ok, err, ◌>>=◌,
}
use nightpass.Base.Patterns.{contains, contains_word, reports_http}
use nightpass.Base.Retry.{retry}
use nightpass.AnchorPlan.{attest, bind_document, anchor_content_root, AnchorCall}
use nightpass.ChainLane.{LaneTx, AnchorTxInput}
use nightpass.RemoteLane.Hashes.{resolve_tx_hash}

-- An error, as far as it is read: the HTTP status (0 if none), the code, the message, and the error
-- code and id of its job.
pub record LaneError : Type 0 where
  pub status : ℕ
  pub code : Text
  pub message : Text
  pub job_code : Text
  pub job_id : Text

abbrev pub any_of : List Text → Text → Bool
any_of [] s = false
any_of (p ∷ ps) s = contains p s || any_of ps s

abbrev pub any_word_of : List Text → Text → Bool
any_word_of [] s = false
any_word_of (p ∷ ps) s = contains_word p s || any_word_of ps s

unfoldable pub is_rebuildable : LaneError → Bool
unfolding contains contains_word reports_http lower
is_rebuildable e =
    e.status == 429
    || e.status == 502
    || e.status == 503
    || reports_http (codes "->") (codes "HTTP ") (codes "429") e.message
    || reports_http (codes "->") (codes "HTTP ") (codes "502") e.message
    || reports_http (codes "->") (codes "HTTP ") (codes "503") e.message
    || any_of
        (codes "JOB_ADMISSION_BUSY"
          ∷ codes "WALLET_SYNCING"
          ∷ codes "WORKER_ROTATING"
          ∷ codes "SPONSOR_POLICY_UNAVAILABLE"
          ∷ [])
        (e.code ++ (codes " " ++ e.message))
    || any_word_of (codes "1010/104" ∷ codes "1010/170" ∷ codes "1010/196" ∷ codes "1014" ∷ [])
        e.message
    || any_of (codes "dust-race" ∷ codes "dustdoublespend" ∷ codes "invaliddustspendproof" ∷ [])
        (lower e.message)

pub data PreparedCall : Type 0 where
  prepare_attest : (payload_hash metadata_hash : Text) → PreparedCall
  prepare_bind_document : (document_id payload_hash : Text) → PreparedCall
  prepare_anchor_content_root : (payload_hash content_root schema_id : Text) → PreparedCall
  prepare_prove_field_predicate :
      (record_key : Text) (valid_until : ℕ) (field_key : Text) (threshold op : ℕ)
      (value salt : Text) (siblings : List Text) (dirs : List Bool)
      → PreparedCall
  prepare_prove_field_membership :
      (record_key : Text) (valid_until : ℕ) (field_key set_root digest salt : Text)
      (siblings : List Text) (dirs : List Bool) (set_siblings : List Text) (set_dirs : List Bool)
      → PreparedCall

pub record Batch : Type 0 where
  pub independent_calls : Bool
  pub ordered_prefix : ℕ

pub record SponsorJob : Type 0 where
  pub tx_hash : Option Text
  pub job_id : Option Text

-- `failed_segments` is the joined list.
pub record Landed : Type 0 where
  pub applied : Option Bool
  pub status : Text
  pub failed_segments : Text

-- The builder and the client, at each attempt.
pub record Sponsor : Type 0 where
  pub build : ℕ → Text → List PreparedCall → Option Batch → Result LaneError Text
  pub sponsor_unbound : ℕ → Text → Result LaneError SponsorJob
  pub wait_landed : ℕ → Text → Result LaneError (Option Landed)
  pub by_identifier : ℕ → Text → ℕ → Option (Option Text)

abbrev pub plain_error : Text → LaneError
plain_error message = record {
  status = 0;
  code = [];
  message = message;
  job_code = [];
  job_id = [];
}

abbrev pub no_hash : Text → SponsorJob → LaneError
no_hash label job = plain_error (
    label
    ++ (codes ": sponsor job "
        ++ (or_else job.job_id (codes "?") ++ codes " succeeded without a transaction hash")))

abbrev pub not_indexed : Text → Text → LaneError
not_indexed label tx_id = plain_error (
    label
    ++ (codes ": transaction "
        ++ (take 12 tx_id
            ++ codes "... was sponsored but the server has not indexed it after 240s")))

abbrev pub not_applied : Text → Text → Landed → LaneError
not_applied label tx_id landed = plain_error (
    label
    ++ (codes ": transaction "
        ++ (take 12 tx_id
            ++ (codes "... landed with status "
                ++ (landed.status
                    ++ (codes " (failed segments "
                        ++ (or_else (truthy (some landed.failed_segments)) (codes "none")
                            ++ codes ")")))))))

module _ (net : Sponsor) (label contract : Text) where
  abbrev pub check_landed : Text → Option Landed → Result LaneError Landed
  check_landed tx_id none = err (not_indexed label tx_id)
  check_landed tx_id (some landed) = elim landed.applied [
    | some false ↦ err (not_applied label tx_id landed)
    | some true ↦ ok landed
    | none ↦ ok landed
  ]

  abbrev pub check_hash : SponsorJob → Result LaneError Text
  check_hash job = elim (truthy job.tx_hash) [ none ↦ err (no_hash label job) | some id ↦ ok id ]

  abbrev pub batch_for : List PreparedCall → Batch → Option Batch
  batch_for (c ∷ []) batch = none
  batch_for calls batch = some batch

  -- One attempt of the loop.
  unfoldable pub attempt_at :
      (ℕ → Result LaneError (List PreparedCall)) → Batch → ℕ → Result LaneError LaneTx
  unfolding resolve_tx_hash
  attempt_at prepare batch n = prepare n >>= λ calls.
      net.build n contract calls (batch_for calls batch) >>= λ built.
      net.sponsor_unbound n built >>= λ job. check_hash job >>= λ tx_id.
      net.wait_landed n tx_id >>= λ answer. check_landed tx_id answer >>= λ landed. ok (record {
        tx_hash = resolve_tx_hash (some tx_id) (net.by_identifier n tx_id) none;
        job_id = text_or_empty job.job_id;
      })

  -- The message of the error that is thrown; its cause is the error of the last attempt.
  abbrev pub labelled : Result LaneError LaneTx → Result (Text × LaneError) LaneTx
  labelled (ok tx) = ok tx
  labelled (err e) = err (label ++ (codes ": " ++ e.message), e)

  unfoldable pub build_and_sponsor :
      (ℕ → Result LaneError (List PreparedCall)) → Batch → Result (Text × LaneError) LaneTx
  unfolding attempt_at is_rebuildable
  build_and_sponsor prepare batch = labelled (retry is_rebuildable (attempt_at prepare batch) 2 0).1

-- `args[i]`; the plan gives every call its arguments.
abbrev pub arg : List Text → ℕ → Text
arg args i = or_else (get_elem? args i) []

abbrev pub prepare_call : AnchorCall → PreparedCall
prepare_call c = elim c.circuit [
  | attest ↦ prepare_attest (arg c.args 0) (arg c.args 1)
  | bind_document ↦ prepare_bind_document (arg c.args 0) (arg c.args 1)
  | anchor_content_root ↦ prepare_anchor_content_root (arg c.args 0) (arg c.args 1) (arg c.args 2)
]

abbrev pub no_batch : Batch
no_batch = record { independent_calls = false; ordered_prefix = 0 }

unfoldable pub submit_anchor_tx : Sponsor → AnchorTxInput → Result (Text × LaneError) LaneTx
unfolding build_and_sponsor
submit_anchor_tx net input =
    build_and_sponsor net input.tx.label input.contract_address
      (λ n. ok (map prepare_call input.tx.calls)) no_batch
