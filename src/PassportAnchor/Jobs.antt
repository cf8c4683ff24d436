-- ===== src/PassportAnchor/Jobs.antt =====
-- Waiting for a NIGHTGATE job (waitForJobResult, waitForJob). The answers of the polls are a
-- parameter, where `none` is a request that throws; the poll interval is positive.
pub mod Waiting
mod Tests
use nightpass.Base.{
  ℕ, zero, suc, ◌+◌, ◌-◌, ◌/◌, Bool, true, false, not, ◌&&◌, Option, none, some, Text, truthy,
  if◌then◌else◌, or_else, ltb, Result, ok, err, ◌>>=◌,
}

pub data JobStatus : Type 0 where
  succeeded job_failed reconciliation_required in_progress : JobStatus

pub data ChainStatus : Type 0 where
  chain_success chain_failure chain_pending : ChainStatus

-- The parsed result object, as far as it is read.
pub record JobValue : Type 0 where
  pub tx_hash : Option Text
  pub tx_id : Option Text

-- `job.result`: falsy, a string with what `JSON.parse` gives (`none` is a throw), or an object.
pub data JobResult : Type 0 where
  absent : JobResult
  json : Option JobValue → JobResult
  object : JobValue → JobResult

pub record Job : Type 0 where
  pub status : JobStatus
  pub chain_status : ChainStatus
  pub tx_hash : Option Text
  pub submission_id : Option Text
  pub error_code : Option Text
  pub error_message : Option Text
  pub result : JobResult

-- The handle of an error is the transaction hash, the submission id, or none.
pub data JobError : Type 0 where
  chain_execution_failed : Option Text → JobError
  failed_with : (code message : Option Text) → JobError
  needs_reconciliation : (handle code message : Option Text) → JobError
  bad_result request_failed timed_out no_tx_hash : JobError

-- `a || b`
abbrev pub or_falsy : Option Text → Option Text → Option Text
or_falsy a b = elim (truthy a) [ none ↦ truthy b | some s ↦ some s ]

abbrev pub handle_of : Job → Option Text
handle_of job = or_falsy job.tx_hash job.submission_id

abbrev pub empty_value : JobValue
empty_value = record { tx_hash = none; tx_id = none }

abbrev pub value_of : JobResult → Result JobError JobValue
value_of absent = ok empty_value
value_of (json none) = err bad_result
value_of (json (some v)) = ok v
value_of (object v) = ok v

abbrev pub chain_final : ChainStatus → Job → Option (Result JobError JobValue)
chain_final chain_failure job = some (err (chain_execution_failed (handle_of job)))
chain_final chain_pending job = none
chain_final chain_success job = some (value_of job.result)

abbrev pub status_final : Bool → JobStatus → Job → Option (Result JobError JobValue)
status_final enforce succeeded job =
    if enforce then chain_final job.chain_status job else some (value_of job.result)
status_final enforce job_failed job = some (err (failed_with job.error_code job.error_message))
status_final enforce reconciliation_required job =
    some (err (needs_reconciliation (handle_of job) job.error_code job.error_message))
status_final enforce in_progress job = none

-- What one round of the loop returns or throws, or `none` if it waits for the next one.
unfoldable pub final : Bool → Job → Option (Result JobError JobValue)
final enforce job = status_final enforce job.status job

unfoldable pub poll_final : Bool → Option Job → Option (Result JobError JobValue)
poll_final enforce none = some (err request_failed)
poll_final enforce (some job) = final enforce job

-- The rounds that are left, from round `i` on.
unfoldable pub wait_loop : (ℕ → Option Job) → Bool → ℕ → ℕ → Result JobError JobValue
wait_loop polls enforce zero i = err timed_out
wait_loop polls enforce (suc left) i =
    let later = wait_loop polls enforce left (i + 1) in
    elim (poll_final enforce (polls i)) [ none ↦ later | some r ↦ r ]

-- `Math.max(1, Math.ceil(timeoutMs / pollIntervalMs))`
abbrev pub attempts : ℕ → ℕ → ℕ
attempts timeout_ms interval_ms =
    let rounds = (timeout_ms + (interval_ms - 1)) / interval_ms in
    if ltb rounds 1 then 1 else rounds

pub record WaitOptions : Type 0 where
  pub require_chain_success : Bool
  pub poll_interval_ms : Option ℕ
  pub timeout_ms : Option ℕ

-- `available` is chainConfirmationAvailable().
unfoldable pub wait_for_job_result :
    (ℕ → Option Job) → Bool → WaitOptions → Result JobError JobValue
wait_for_job_result polls available o =
    wait_loop polls (o.require_chain_success && available)
      (attempts (or_else o.timeout_ms 600_000) (or_else o.poll_interval_ms 5000)) 0

abbrev pub first_given : Option Text → Option Text → Option Text
first_given none b = b
first_given (some a) b = some a

abbrev pub hash_or_throw : Option Text → Result JobError Text
hash_or_throw none = err no_tx_hash
hash_or_throw (some hash) = ok hash

unfoldable pub wait_for_job : (ℕ → Option Job) → Bool → Result JobError Text
unfolding wait_for_job_result
wait_for_job polls available = do
  result ←
      wait_for_job_result polls available
        (record { require_chain_success = true; poll_interval_ms = none; timeout_ms = none })
  hash_or_throw (truthy (first_given result.tx_hash result.tx_id))
