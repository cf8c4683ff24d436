-- ===== src/Base/Retry.antt =====
-- A loop that tries again after some errors, up to a number of attempts. What an attempt does is a
-- function of its number; the result is paired with the number of attempts made.
use Prim.Native.Nat.{ℕ, zero, suc, ◌+◌, ◌≤◌, ◌<◌}
use mathlib.Core.Path.{◌≡◌, refl}
use mathlib.Core.Logic.{◌⊎◌, inl, inr}
use mathlib.Core.Bool.{Bool, true, false}
use native.Mathlib.Omega.{arith}
use native.Mathlib.Decide.{dec_lt}
use nightpass.Base.Tests.{if◌then◌else◌, Bool-cases}
use nightpass.Base.Results.{Result, ok, err}

module _ {E A : Type 0} (retryable : E → Bool) (attempt : ℕ → Result E A) where
  -- Attempt `n`, with `left` further ones allowed.
  unfoldable pub retry : ℕ → ℕ → ℕ × Result E A
  retry zero n = (suc n, attempt n)
  retry (suc left) n =
      let later = retry left (suc n) in
      elim (attempt n) [
        | ok a ↦ (suc n, ok a)
        | err e ↦ if retryable e then later else (suc n, err e)
      ]

  -- An attempt after which the loop goes on.
  abbrev pub Retried : ℕ → Type 0
  Retried k = (e : E) × (attempt k ≡ err e) × (retryable e ≡ true)

  -- The loop ended with attempt `k`: its result is the loop's, all attempts before it are retried,
  -- and it returned, threw an error that is not retried, or was the last that was allowed.
  pub record Ended (first last : ℕ) (out : ℕ × Result E A) : Type 0 where
    pub k : ℕ
    pub calls : out.0 ≡ suc k
    pub first_le : first ≤ k
    pub le_last : k ≤ last
    pub result : attempt k ≡ out.1
    pub retried : (j : ℕ) → first ≤ j → j < k → Retried j
    pub reason :
        ((a : A) × (out.1 ≡ ok a))
        ⊎ ((e : E) × (out.1 ≡ err e) × (retryable e ≡ false))
        ⊎ (k ≡ last)

  Ended-now :
      (n last : ℕ) (r : Result E A)
      → n ≤ last
      → attempt n ≡ r
      → ((a : A) × (r ≡ ok a)) ⊎ ((e : E) × (r ≡ err e) × (retryable e ≡ false)) ⊎ (n ≡ last)
      → Ended n last (suc n, r)
  Ended-now n last r h e why = record {
    k = n;
    calls = refl;
    first_le = omega arith;
    le_last = h;
    result = e;
    retried = λ j a b. absurd (omega arith);
    reason = why;
  }

  Ended-later :
      (n last : ℕ) (out : ℕ × Result E A) → Retried n → Ended (suc n) last out → Ended n last out
  Ended-later n last out first d = record {
    k = d.k;
    calls = d.calls;
    first_le = omega (arith, d.first_le);
    le_last = d.le_last;
    result = d.result;
    retried = λ j a b. elim (dec_lt n j) [
      | yes lt ↦ d.retried j (omega arith) b
      | no ge ↦ let same : j ≡ n = omega arith in rw same first
    ];
    reason = d.reason;
  }

  Result-cases : (r : Result E A) → ((a : A) × (r ≡ ok a)) ⊎ ((e : E) × (r ≡ err e))
  Result-cases (ok a) = inl (a, refl)
  Result-cases (err e) = inr (e, refl)

  pub retry-Ended : (left n : ℕ) → Ended n (n + left) (retry left n)
  unfolding retry
  retry-Ended zero n = Ended-now n (n + 0) (attempt n) (omega arith) refl (inr (inr (omega arith)))
  retry-Ended (suc left) n = elim (Result-cases (attempt n)) [
    | inl (a, e) ↦ rw (e, retry) (Ended-now n (n + suc left) (ok a) (omega arith) e (inl (a, refl)))
    | inr (x, e) ↦ elim (Bool-cases (retryable x)) [
      | inl again ↦
          rw (e, again, retry)
            (Ended-later n (n + suc left) (retry left (suc n)) (x, e, again)
              (let same : suc n + left ≡ n + suc left = omega arith in
                rw (← same) (retry-Ended left (suc n))))
      | inr stop ↦
          rw (e, stop, retry)
            (Ended-now n (n + suc left) (err x) (omega arith) e (inr (inl (x, refl, stop))))
    ]
  ]
