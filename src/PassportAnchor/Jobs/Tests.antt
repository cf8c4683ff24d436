-- ===== src/PassportAnchor/Jobs/Tests.antt =====
-- Waits at concrete polls.
use nightpass.Base.{ℕ, zero, suc, ◌<◌, ◌≡◌, refl, true, [], Option, none, some, codes, ok, err}
use nightpass.PassportAnchor.Jobs.{
  Job, JobValue, json, succeeded, reconciliation_required, in_progress, chain_success,
  chain_failure, chain_pending, WaitOptions, timed_out, chain_execution_failed,
  needs_reconciliation, bad_result, wait_for_job_result, wait_for_job, wait_loop, poll_final, final,
  value_of,
}
use nightpass.PassportAnchor.Jobs.Waiting.{wait_for_job_result-ok, Waited, rounds, enforced}

opened : Unit {0}
unfolding wait_for_job_result wait_for_job wait_loop poll_final final
opened = tt

abbrev hash : JobValue
hash = record { tx_hash = some (codes "ab"); tx_id = none }

abbrev job : Job
job = record {
  status = succeeded;
  chain_status = chain_success;
  tx_hash = some [];
  submission_id = some (codes "sub");
  error_code = none;
  error_message = none;
  result = json (some hash);
}

-- The chain confirms the job in the second round.
abbrev polls : ℕ → Option Job
polls zero = some (record job { chain_status = chain_pending })
polls (suc i) = some job

abbrev pending : ℕ → Option Job
pending i = some (record job { status = in_progress })

abbrev options : WaitOptions
options = record { require_chain_success = true; poll_interval_ms = some 4; timeout_ms = some 9 }

runs :
    (wait_for_job_result polls true options ≡ ok hash)
    × (wait_for_job_result pending true options ≡ err timed_out)
    × (wait_for_job_result (λ i. some (record job { chain_status = chain_failure })) true options
        ≡ err (chain_execution_failed (some (codes "sub"))))
    × (wait_for_job_result
          (λ i. some (record job { status = reconciliation_required }))
          true
          options
        ≡ err (needs_reconciliation (some (codes "sub")) none none))
    × (wait_for_job_result (λ i. some (record job { result = json none })) true options
        ≡ err bad_result)
    × (wait_for_job polls true ≡ ok (codes "ab"))
    × (rounds options ≡ 3)
unfolding opened
runs = (refl, refl, refl, refl, refl, refl, refl)

wait_for_job_result-ok_example :
    (k : ℕ) × (j : Job) × (k < rounds options)
    × (polls k ≡ some j)
    × (j.status ≡ succeeded)
    × (enforced options true ≡ true → j.chain_status ≡ chain_success)
    × (value_of j.result ≡ ok hash)
    × Waited polls (enforced options true) 0 k
wait_for_job_result-ok_example = wait_for_job_result-ok polls true options hash runs.0
