-- ===== src/DemoService/Caps/Limits.antt =====
-- The caps hold whatever the order of requests, restarts and days.
use nightpass.Base.{
  ℕ, suc, ◌+◌, ◌≤◌, ◌≡◌, inl, inr, refl, arith, Bool, true, false, not, List, [], ◌∷◌, ◌++◌, map,
  any, Option, some, Text, ltb, ◌==◌, All, All-append, Bool-cases, if◌then◌else◌, Result, ok, err,
  require, ◌>>◌, Ensures,
}
use nightpass.Base.JsNumber.{JsNumber, int}
use nightpass.Base.Splits.{Env}
use nightpass.DemoService.{enabled, max_per_day, max_per_tester}
use nightpass.DemoService.Caps.{
  TesterRow, RunRow, Tables, Refusal, busy, address_budget, daily_budget, tester_used, Visitor,
  address_ok, failed, new_run, new_tester, queue_ok, client_ok, day_ok, tester_ok, with_run,
  has_left, count_passport, runs_today, reached, gate, start_tester, patch_run, is_stale,
  fail_stale_runs,
}
use nightpass.DemoService.Caps.Budget.{
  World, or_same, Change, run_asked, tester_asked, patched, restarted, day_passed, Reached,
  at_first, and_then, on_day, runs_of, counted, rows_of, on_day-append, runs_of-append,
  counted-append, rows_of-append, runs_today-on_day, rows_of-count_passport,
  counted-count_passport_le, counted-count_passport, within-count_passport, counted-le,
}

-- A request that passes the gate found budget left, counts a passport and adds its run.
record Passed (number : Text → JsNumber) (env : Env) (today tester : ℕ) (db changed : Tables)
    : Type 0 where
  run : RunRow
  day : run.created_on ≡ today
  owner : run.tester ≡ tester
  in_budget : reached (max_per_day number env) (runs_today db today) ≡ false
  won : any (has_left (max_per_tester number env) tester) db.testers ≡ true
  testers : changed.testers ≡ count_passport (max_per_tester number env) tester db.testers
  runs : changed.runs ≡ db.runs ++ (run ∷ [])

Ensures-four :
    {A : Type 0} (P : A → Type 0) (a b c d : Bool) (e f g h : Refusal) (m : Result Refusal A)
    → (c ≡ true → d ≡ true → Ensures P m)
    → Ensures P (require a e >> (require b f >> (require c g >> (require d h >> m))))
Ensures-four P false b c d e f g h m k = tt
Ensures-four P true false c d e f g h m k = tt
Ensures-four P true true false d e f g h m k = tt
Ensures-four P true true true false e f g h m k = tt
Ensures-four P true true true true e f g h m k = k refl refl

gate-Passed :
    (number : Text → JsNumber) (env : Env) (today depth : ℕ) (v : Visitor) (tester : ℕ) (pid : Text)
    (id : ℕ) (db : Tables)
    → Ensures (Passed number env today tester db) (gate number env today depth v tester pid id db)
unfolding gate
gate-Passed number env today depth v tester pid id db =
    Ensures-four (Passed number env today tester db) (queue_ok number env depth)
      (client_ok number env today v db) (day_ok number env today db)
      (tester_ok number env tester db) busy address_budget daily_budget tester_used
      (ok (with_run number env today v tester pid id db))
      (λ day won. record {
        run = new_run today v tester pid id;
        day = refl;
        owner = refl;
        in_budget = not-true _ day;
        won = won;
        testers = refl;
        runs = refl;
      })
  where
    not-true : (b : Bool) → not b ≡ true → b ≡ false
    not-true false h = refl
    not-true true h = absurd (cc)

module _ (number : Text → JsNumber) (env : Env) (day_cap tester_cap : ℕ)
    (per_day : max_per_day number env ≡ int day_cap)
    (per_tester : max_per_tester number env ≡ int tester_cap) where
  record Within (w : World) : Type 0 where
    past : All (λ r. r.created_on ≤ w.today) w.tables.runs
    budget : (d : ℕ) → on_day d w.tables.runs ≤ day_cap
    capped : All (λ t. t.passport_count ≤ tester_cap) w.tables.testers
    spent : (id : ℕ) → runs_of id w.tables.runs ≤ counted id w.tables.testers
    single : (id : ℕ) → rows_of id w.tables.testers ≤ (if ltb id w.next_tester then 1 else 0)

  Passed-Within :
      (w : World) (tester : ℕ) (changed : Tables)
      → Passed number env w.today tester w.tables changed
      → Within w
      → Within (record w { tables = changed })
  unfolding runs_today
  Passed-Within w tester changed p h = record {
    past = rw p.runs (All-append _ w.tables.runs (p.run ∷ []) h.past (omega (arith, p.day), tt));
    budget = λ d. rw (p.runs, on_day-append d w.tables.runs (p.run ∷ []), p.day) (budget_at d);
    capped =
        rw (p.testers, per_tester)
          (within-count_passport tester_cap tester w.tables.testers h.capped);
    spent = λ id.
        rw (p.runs, p.testers, runs_of-append id w.tables.runs (p.run ∷ []), p.owner) (spent_by id);
    single = λ id.
        rw
          (p.testers, rows_of-count_passport (max_per_tester number env) tester id w.tables.testers)
          (h.single id);
  }
    where
      budget_at :
          (d : ℕ)
          → on_day d w.tables.runs + on_day d (record p.run { created_on = w.today } ∷ []) ≤ day_cap
      budget_at d =
          let free = rw per_day at p.in_budget in
          ground (arith, h.budget d, runs_today-on_day w.today w.tables.runs h.past)

      spent_by :
          (id : ℕ)
          → runs_of id w.tables.runs + runs_of id (record p.run { tester = tester } ∷ [])
            ≤ counted id (count_passport (max_per_tester number env) tester w.tables.testers)
      spent_by id = ground (
        arith,
        h.spent id,
        counted-count_passport_le (max_per_tester number env) tester id w.tables.testers,
        counted-count_passport (max_per_tester number env) tester w.tables.testers p.won,
      )

  gate-Within :
      (w : World) (tester : ℕ) (r : Result Refusal Tables)
      → Ensures (Passed number env w.today tester w.tables) r
      → Within w
      → Within (record w { tables = or_same w.tables r })
  gate-Within w tester (err e) g h = h
  gate-Within w tester (ok changed) g h = Passed-Within w tester changed g h

  start_tester-Within :
      (w : World) (v : Visitor) (before : Tables) (tester_id : Text) (addresses : Text × Text)
      (nickname : Option Text)
      → Within w
      → Within (record w {
        tables = or_same w.tables (
            start_tester number env w.today v before
              (w.next_tester, tester_id)
              addresses
              nickname
              w.tables);
        next_tester = suc w.next_tester;
      })
  unfolding start_tester
  start_tester-Within w v before tester_id addresses nickname h = elim (Bool-cases (enabled env)) [
    | inr e ↦ rw e unchanged
    | inl e ↦ elim (Bool-cases (address_ok number env w.today v before)) [
      | inr f ↦ rw (e, f) unchanged
      | inl f ↦ elim (Bool-cases (address_ok number env w.today v w.tables)) [
        | inr g ↦ rw (e, f, g) unchanged
        | inl g ↦
            rw (e, f, g)
              (record {
                past = h.past;
                budget = h.budget;
                capped = All-append _ w.tables.testers (_ ∷ []) h.capped (omega arith, tt);
                spent = λ id.
                    rw (counted-append id w.tables.testers (added ∷ []))
                      (omega (arith, h.spent id));
                single = λ id.
                    rw (rows_of-append id w.tables.testers (added ∷ []))
                      (ground (arith, h.single id));
              })
      ]
    ]
  ]
    where
      added : TesterRow
      added = new_tester w.today v (w.next_tester, tester_id) addresses nickname

      unchanged : Within (record w { next_tester = suc w.next_tester })
      unchanged = record {
        past = h.past;
        budget = h.budget;
        capped = h.capped;
        spent = h.spent;
        single = λ id. ground (arith, h.single id);
      }

  -- A change of rows that keeps their day and their tester.
  rows-Within :
      (w : World) (f : RunRow → RunRow)
      → ((r : RunRow) → ((f r).created_on ≡ r.created_on) × ((f r).tester ≡ r.tester))
      → Within w
      → Within (record w { tables = record w.tables { runs = map f w.tables.runs } })
  rows-Within w f same h = record {
    past = past_after w.tables.runs h.past;
    budget = λ d. omega (arith, h.budget d, days_after d w.tables.runs);
    capped = h.capped;
    spent = λ id. omega (arith, h.spent id, owners_after id w.tables.runs);
    single = h.single;
  }
    where
      past_after :
          (rs : List RunRow)
          → All (λ r. r.created_on ≤ w.today) rs
          → All (λ r. r.created_on ≤ w.today) (map f rs)
      past_after [] g = tt
      past_after (r ∷ rs) (le, g) = (omega (arith, (same r).0, le), past_after rs g)

      days_after : (d : ℕ) (rs : List RunRow) → on_day d (map f rs) ≡ on_day d rs
      days_after d [] = refl
      days_after d (r ∷ rs) = rw (same r).0 (omega (arith, days_after d rs))

      owners_after : (id : ℕ) (rs : List RunRow) → runs_of id (map f rs) ≡ runs_of id rs
      owners_after id [] = refl
      owners_after id (r ∷ rs) = rw (same r).1 (omega (arith, owners_after id rs))

  if_same :
      (b : Bool) (r s : RunRow)
      → (s.created_on ≡ r.created_on) × (s.tester ≡ r.tester)
      → ((if b then s else r).created_on ≡ r.created_on) × ((if b then s else r).tester ≡ r.tester)
  if_same true r s h = h
  if_same false r s h = (refl, refl)

  Change-Within : {v w : World} → Change number env v w → Within v → Within w
  unfolding patch_run fail_stale_runs
  Change-Within {v} (run_asked depth visitor tester pid id) h =
      gate-Within v tester _ (gate-Passed number env v.today depth visitor tester pid id v.tables) h
  Change-Within {v} (tester_asked visitor before tester_id addresses nickname) h =
      start_tester-Within v visitor before tester_id addresses nickname h
  Change-Within {v} (patched id state error) h =
      rows-Within v _
        (λ r. if_same (r.run_id == id) r (record r { state = state; error = error }) (refl, refl)) h
  Change-Within {v} (restarted error) h =
      rows-Within v _
        (λ r.
          if_same (is_stale r.state) r (record r { state = failed; error = some error })
            (refl, refl))
        h
  Change-Within {v} day_passed h = record {
    past = later v.tables.runs h.past;
    budget = h.budget;
    capped = h.capped;
    spent = h.spent;
    single = h.single;
  }
    where
      later :
          (rs : List RunRow)
          → All (λ r. r.created_on ≤ v.today) rs
          → All (λ r. r.created_on ≤ suc v.today) rs
      later [] g = tt
      later (r ∷ rs) (le, g) = (omega (arith, le), later rs g)

  Reached-Within : (w : World) → Reached number env w → Within w
  Reached-Within w at_first = record {
    past = tt;
    budget = λ d. omega arith;
    capped = tt;
    spent = λ id. omega arith;
    single = λ id. ground arith;
  }
  Reached-Within w (and_then {v = o} r step) = Change-Within step (Reached-Within o r)

  -- Where the two limits are integers: whatever the order of requests, restarts and days, no day has
  -- more runs than its limit and no tester more than the tester's.
  pub Reached-caps :
      (w : World)
      → Reached number env w
      → ((d : ℕ) → on_day d w.tables.runs ≤ day_cap)
        × ((id : ℕ) → runs_of id w.tables.runs ≤ tester_cap)
  Reached-caps w r =
      let h = Reached-Within w r in
      (
        h.budget,
        (λ id.
            let one : rows_of id w.tables.testers ≤ 1 = ground (arith, h.single id) in
            let (le, _) = counted-le tester_cap id w.tables.testers h.capped one in
            omega (arith, h.spent id, le)),
      )
