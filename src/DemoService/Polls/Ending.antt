-- ===== src/DemoService/Polls/Ending.antt =====
-- The loops end: within their time a row is found, a query throws, or they time out.
use nightpass.Base.{
  ℕ, zero, suc, ◌+◌, ◌*◌, ◌≤◌, ◌<◌, ◌≡◌, ◌⊎◌, inl, inr, refl, arith, ltb→lt, Option, none, some,
  Text, ltb, Bool-cases, Result, ok, err,
}
use native.Mathlib.Decide.{dec_lt}
use nightpass.DemoService.Polls.{PollError, query_failed, timed_out, poll_from, poll}

module _ {A : Type 0} (polls : ℕ → Result Text (Option A)) (clock : ℕ → ℕ) (deadline : ℕ) where
  -- What the loop does at a poll.
  abbrev Waits : ℕ → Type 0
  Waits j = (polls j ≡ ok none) × (clock j ≤ deadline)

  -- The loop ended at poll `k`, and waited at all before it.
  pub record Ended (first : ℕ) (r : Result PollError A) : Type 0 where
    pub k : ℕ
    pub first_le : first ≤ k
    pub waited : (j : ℕ) → first ≤ j → j < k → Waits j
    pub reason :
        ((a : A) × (polls k ≡ ok (some a)) × (r ≡ ok a))
        ⊎ ((e : Text) × (polls k ≡ err e) × (r ≡ err (query_failed e)))
        ⊎ ((polls k ≡ ok none) × (deadline < clock k) × (r ≡ err timed_out))

  Ended-later :
      (first : ℕ) (r : Result PollError A) → Waits first → Ended (suc first) r → Ended first r
  Ended-later first r now d = record {
    k = d.k;
    first_le = omega (arith, d.first_le);
    waited = λ j a b. elim (dec_lt first j) [
      | yes lt ↦ d.waited j (omega arith) b
      | no ge ↦ let same : j ≡ first = omega arith in rw same now
    ];
    reason = d.reason;
  }

  Poll-cases :
      (r : Result Text (Option A))
      → ((e : Text) × (r ≡ err e)) ⊎ ((a : A) × (r ≡ ok (some a))) ⊎ (r ≡ ok none)
  Poll-cases (err e) = inl (e, refl)
  Poll-cases (ok (some a)) = inr (inl (a, refl))
  Poll-cases (ok none) = inr (inr refl)

  poll_from-Ended :
      (fuel i : ℕ)
      → ((j : ℕ) → i + fuel ≤ suc j → deadline < clock j)
      → 0 < fuel
      → Ended i (poll_from polls clock deadline fuel i)
  unfolding poll_from
  poll_from-Ended zero i late some_fuel = absurd (omega arith)
  poll_from-Ended (suc fuel) i late some_fuel = elim (Poll-cases (polls i)) [
    | inl (e, h) ↦ rw (h, poll_from) (now (inr (inl (e, h, refl))))
    | inr (inl (a, h)) ↦ rw (h, poll_from) (now (inl (a, h, refl)))
    | inr (inr h) ↦ elim (Bool-cases (ltb deadline (clock i))) [
      | inl over ↦ rw (h, over, poll_from) (now (inr (inr (h, ltb→lt _ _ over, refl))))
      | inr early ↦
          let before : clock i ≤ deadline = ground arith in
          rw (h, early, poll_from)
            (Ended-later i _ (h, before)
              (poll_from-Ended fuel (suc i) (λ j le. late j (omega arith)) (left fuel before late)))
    ]
  ]
    where
      now :
          {r : Result PollError A}
          → ((a : A) × (polls i ≡ ok (some a)) × (r ≡ ok a))
            ⊎ ((e : Text) × (polls i ≡ err e) × (r ≡ err (query_failed e)))
            ⊎ ((polls i ≡ ok none) × (deadline < clock i) × (r ≡ err timed_out))
          → Ended i r
      now why = record {
        k = i;
        first_le = omega arith;
        waited = λ j a b. absurd (omega arith);
        reason = why;
      }

      left :
          (n : ℕ) → clock i ≤ deadline → ((j : ℕ) → i + suc n ≤ suc j → deadline < clock j) → 0 < n
      left zero before late = absurd (omega (arith, late i (omega arith)))
      left (suc n) before late = omega arith

-- If a poll takes five seconds at least, the loop ends: at a row that settles it, at a query that
-- throws, or at the first poll after its time; at all polls before it found nothing, in time.
pub poll-Ended :
    {A : Type 0} (rounds : ℕ) (polls : ℕ → Result Text (Option A)) (clock : ℕ → ℕ) (start : ℕ)
    → ((j : ℕ) → start + 5000 * suc j ≤ clock j)
    → Ended polls clock (start + 5000 * rounds) 0 (poll rounds polls clock start)
unfolding poll
poll-Ended rounds polls clock start slow =
    poll_from-Ended polls clock (start + 5000 * rounds) (suc rounds) 0
      (λ j le. omega (arith, slow j)) (omega arith)
