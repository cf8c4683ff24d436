-- ===== src/PassportAnchor/Jobs/Waiting.antt =====
-- What a wait that ends has seen.
use nightpass.Base.{
  ℕ, zero, suc, ◌+◌, ◌≤◌, ◌<◌, ◌≡◌, ◌≢◌, sym, ◌⊎◌, inl, inr, refl, arith, Bool, true, ◌&&◌, Option,
  none, some, Option-cases, or_else, Result, ok, err,
}
use native.Mathlib.Decide.{dec_lt}
use nightpass.PassportAnchor.Jobs.{
  succeeded, chain_success, Job, JobValue, JobError, timed_out, final, poll_final, wait_loop,
  attempts, WaitOptions, wait_for_job_result, value_of,
}

-- Every round before this one waited.
abbrev pub Waited : (ℕ → Option Job) → Bool → ℕ → ℕ → Type 0
Waited polls enforce from to = (k : ℕ) → from ≤ k → k < to → poll_final enforce (polls k) ≡ none

module _ (polls : ℕ → Option Job) (enforce : Bool) where
  Waited-cons :
      (i to : ℕ)
      → poll_final enforce (polls i) ≡ none
      → Waited polls enforce (i + 1) to
      → Waited polls enforce i to
  Waited-cons i to e before k a b = elim (dec_lt i k) [
    | yes lt ↦ before k (omega arith) b
    | no ge ↦ let same : k ≡ i = omega arith in rw same e
  ]

  -- The loop ends at the first round that does not wait, or times out after all of them.
  wait_loop_lem :
      (left i : ℕ) (r : Result JobError JobValue)
      → wait_loop polls enforce left i ≡ r
      → ((k : ℕ) × (k < i + left)
          × Waited polls enforce i k
          × (poll_final enforce (polls k) ≡ some r))
        ⊎ ((r ≡ err timed_out) × Waited polls enforce i (i + left))
  unfolding wait_loop
  wait_loop_lem zero i r h = inr (sym h, λ k a b. absurd (omega arith))
  wait_loop_lem (suc left) i r h = elim (Option-cases (poll_final enforce (polls i))) [
    | inr (r', e) ↦
        inl (i, omega arith, (λ k a b. absurd (omega arith)), cc (rw (e, wait_loop) at h, e))
    | inl e ↦ elim (wait_loop_lem left (i + 1) r (rw (e, wait_loop) at h)) [
      | inl (k, lt, before, here) ↦ inl (k, omega arith, Waited-cons i k e before, here)
      | inr (out, before) ↦
          inr (out, Waited-cons i (i + suc left) e (λ k a b. before k a (omega arith)))
    ]
  ]

-- A round that returns has a succeeded job, on the chain too where that is enforced.
pub final-ok :
    (enforce : Bool) (job : Job) (v : JobValue)
    → final enforce job ≡ some (ok v)
    → (job.status ≡ succeeded)
      × ((enforce ≡ true) → job.chain_status ≡ chain_success)
      × (value_of job.result ≡ ok v)
unfolding poll_final final
final-ok enforce job v h = (ground arith, (λ e. ground arith), ground arith)

poll_final-ok :
    (enforce : Bool) (r : Option Job) (v : JobValue)
    → poll_final enforce r ≡ some (ok v)
    → (job : Job) × (r ≡ some job) × (final enforce job ≡ some (ok v))
unfolding poll_final
poll_final-ok enforce none v h = absurd (ground arith)
poll_final-ok enforce (some job) v h = (job, refl, h)

-- The rounds that the options allow.
abbrev pub rounds : WaitOptions → ℕ
rounds o = attempts (or_else o.timeout_ms 600_000) (or_else o.poll_interval_ms 5000)

abbrev pub enforced : WaitOptions → Bool → Bool
enforced o available = o.require_chain_success && available

-- A wait that returns a value ends at a round within the budget whose job succeeded with that value,
-- on the chain too where chain success is required and can be known; no earlier round had ended.
pub wait_for_job_result-ok :
    (polls : ℕ → Option Job) (available : Bool) (o : WaitOptions) (v : JobValue)
    → wait_for_job_result polls available o ≡ ok v
    → (k : ℕ) × (job : Job) × (k < rounds o)
      × (polls k ≡ some job)
      × (job.status ≡ succeeded)
      × (enforced o available ≡ true → job.chain_status ≡ chain_success)
      × (value_of job.result ≡ ok v)
      × Waited polls (enforced o available) 0 k
unfolding wait_for_job_result
wait_for_job_result-ok polls available o v h =
    elim (wait_loop_lem polls (enforced o available) (rounds o) 0 (ok v) h) [
      | inl (k, lt, before, here) ↦
          let (job, e, f) = poll_final-ok (enforced o available) (polls k) v here in
          let (s, c, r) = final-ok (enforced o available) job v f in
          (k, job, omega arith, e, s, c, r, before)
      | inr (out, before) ↦ absurd (ground arith)
    ]

poll_final-ne-timed_out :
    (enforce : Bool) (r : Option Job) → poll_final enforce r ≢ some (err timed_out)
unfolding poll_final final
poll_final-ne-timed_out enforce none = λ h. ground arith
poll_final-ne-timed_out enforce (some job) = λ h. ground arith

-- A wait that times out has gone through all rounds of its budget, and none of them had ended.
pub wait_for_job_result-timed_out :
    (polls : ℕ → Option Job) (available : Bool) (o : WaitOptions)
    → wait_for_job_result polls available o ≡ err timed_out
    → Waited polls (enforced o available) 0 (rounds o)
unfolding wait_for_job_result
wait_for_job_result-timed_out polls available o h =
    elim (wait_loop_lem polls (enforced o available) (rounds o) 0 (err timed_out) h) [
      | inl (k, lt, before, here) ↦
          absurd (poll_final-ne-timed_out (enforced o available) (polls k) here)
      | inr (out, before) ↦ λ k a b. before k a (omega arith)
    ]
