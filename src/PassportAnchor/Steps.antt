-- ===== src/PassportAnchor/Steps.antt =====
-- One chain step with a bounded retry (runChainStep). An error is its message; the pause between
-- attempts is left out.
pub mod Retries
mod Tests
use nightpass.Base.{ℕ, Bool, ◌||◌, Text, codes, lower, Result, ok, err}
use nightpass.Base.Patterns.{contains, contains_word}
use nightpass.Base.Retry.{retry}

-- /\b1014\b|\b1010\/170\b|database is locked/i
unfoldable pub is_retryable : Text → Bool
is_retryable msg =
    contains_word (codes "1014") msg
    || contains_word (codes "1010/170") msg
    || contains (codes "database is locked") (lower msg)

-- The number of attempts, and the value or the last error's message with the kind in front of it.
abbrev pub labelled : {A : Type 0} → Text → Result Text A → Result (Text × Text) A
labelled kind (ok a) = ok a
labelled kind (err msg) = err (kind, msg)

module _ {A : Type 0} where
  unfoldable pub run_chain_step : Text → (ℕ → Result Text A) → ℕ × Result (Text × Text) A
  run_chain_step kind attempt =
      let (calls, r) = retry is_retryable attempt 2 0 in (calls, labelled kind r)
