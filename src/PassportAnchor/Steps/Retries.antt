-- ===== src/PassportAnchor/Steps/Retries.antt =====
-- When a chain step is tried again.
use nightpass.Base.{ℕ, suc, ◌≤◌, ◌<◌, ◌≡◌, ◌⊎◌, arith, false, Text, Result, ok, err}
use nightpass.Base.Retry.{retry-Ended, Retried}
use nightpass.PassportAnchor.Steps.{is_retryable, labelled, run_chain_step}

module _ {A : Type 0} (kind : Text) (attempt : ℕ → Result Text A) where
  -- A step makes at most three attempts. Its outcome is that of the last one, with the kind in front
  -- of an error; every attempt before it failed with a retryable error, so no attempt follows one
  -- that returned or failed otherwise; and it stops early only at such an attempt.
  pub run_chain_step_lem :
      (k : ℕ) × ((run_chain_step kind attempt).0 ≡ suc k)
      × (k ≤ 2)
      × ((run_chain_step kind attempt).1 ≡ labelled kind (attempt k))
      × ((j : ℕ) → j < k → Retried is_retryable attempt j)
      × (((a : A) × (attempt k ≡ ok a))
          ⊎ ((msg : Text) × (attempt k ≡ err msg) × (is_retryable msg ≡ false))
          ⊎ (k ≡ 2))
  unfolding run_chain_step
  run_chain_step_lem =
      let d = retry-Ended is_retryable attempt 2 0 in
      (
        d.k,
        d.calls,
        omega (arith, d.le_last),
        rw d.result,
        (λ j b. d.retried j (omega arith) b),
        rw d.result d.reason,
      )
