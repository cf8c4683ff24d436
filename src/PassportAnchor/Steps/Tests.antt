-- ===== src/PassportAnchor/Steps/Tests.antt =====
-- A chain step that is tried again once.
use nightpass.Base.{ℕ, zero, suc, ◌≡◌, refl, true, false, Text, codes, lower, Result, ok, err}
use nightpass.Base.Patterns.{contains, contains_word, contains_word_from, after_prefix}
use nightpass.Base.Retry.{retry}
use nightpass.PassportAnchor.Steps.{is_retryable, run_chain_step}

opened : Unit {0}
unfolding is_retryable run_chain_step retry contains contains_word contains_word_from after_prefix
    lower
opened = tt

abbrev attempt : ℕ → Result Text ℕ
attempt zero = err (codes "pool reject (1014)")
attempt (suc n) = ok 7

runs :
    (is_retryable (codes "SQLITE: Database is LOCKED") ≡ true)
    × (is_retryable (codes "code 10140") ≡ false)
    × (run_chain_step (codes "attest") attempt ≡ (2, ok 7))
    × (run_chain_step {A = ℕ} (codes "attest") (λ n. err (codes "no"))
        ≡ (1, err (codes "attest", codes "no")))
unfolding opened
runs = (refl, refl, refl, refl)
