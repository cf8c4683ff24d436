-- ===== src/DemoService/Caps/Restart.antt =====
-- What a restart does to the rows of the runs (failStaleRuns).
use nightpass.Base.{
  ◌≡◌, refl, arith, inl, inr, Bool, true, false, not, List, [], ◌∷◌, map, any, all, some, Text,
  Bool-cases, if◌then◌else◌,
}
use nightpass.DemoService.Caps.{
  RunRow, RunState, Tables, queued, wallet, anchoring, proving, aging, publishing, done, failed,
  is_stale, fail_stale_runs,
}

abbrev pub is_aging : RunState → Bool
is_aging aging = true
is_aging _ = false

abbrev pub is_over : RunState → Bool
is_over done = true
is_over failed = true
is_over _ = false

-- After a restart no run is left unfinished, exactly if none was in its second life: that state is not
-- among those that are failed.
pub fail_stale_runs-over :
    (error : Text) (db : Tables)
    → all (λ r. is_over r.state) (fail_stale_runs error db).runs
      ≡ not (any (λ r. is_aging r.state) db.runs)
unfolding fail_stale_runs
fail_stale_runs-over error db = by_rows db.runs
  where
    fate : (s : RunState) → (if is_stale s then true else is_over s) ≡ not (is_aging s)
    fate queued = refl
    fate wallet = refl
    fate anchoring = refl
    fate proving = refl
    fate aging = refl
    fate publishing = refl
    fate done = refl
    fate failed = refl

    by_rows :
        (rs : List RunRow)
        → all
            (λ r. is_over r.state)
            (map
              (λ r. if is_stale r.state then record r { state = failed; error = some error } else r)
              rs)
          ≡ not (any (λ r. is_aging r.state) rs)
    by_rows [] = refl
    by_rows (r ∷ rs) = elim (Bool-cases (is_stale r.state)) [
      | inl e ↦
          let known = fate r.state in
          let settled = rw e at known in rw e (ground (arith, by_rows rs))
      | inr e ↦
          let known = fate r.state in
          let settled = rw e at known in rw e (ground (arith, by_rows rs))
    ]
