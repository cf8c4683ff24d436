-- ===== src/DemoService/Caps/Budget.antt =====
-- What can happen to the tables, and the counts that the caps are about.
use nightpass.Base.{
  ℕ, suc, ◌+◌, ◌≤◌, ◌≡◌, inl, inr, refl, arith, true, List, [], ◌∷◌, ◌++◌, filter, any, Option,
  Text, length, leb, ◌==◌, All, Bool-cases, if◌then◌else◌, Result, ok, err,
}
use nightpass.Base.JsNumber.{JsNumber, int}
use nightpass.Base.Splits.{Env}
use nightpass.DemoService.Caps.{
  TesterRow, RunRow, RunState, Tables, Refusal, Visitor, has_left, count_passport, gate,
  start_tester, patch_run, fail_stale_runs,
}

-- The tables, the day, and how many testers have been given an id.
pub record World : Type 0 where
  pub tables : Tables
  pub today : ℕ
  pub next_tester : ℕ

abbrev pub empty : World
empty = record { tables = record { testers = []; runs = [] }; today = 0; next_tester = 0 }

-- The tables after a request, unchanged if it is refused.
abbrev pub or_same : Tables → Result Refusal Tables → Tables
or_same db (ok changed) = changed
or_same db (err e) = db

module _ (number : Text → JsNumber) (env : Env) where
  -- What can happen: a run is asked for, a tester is asked for, a run's row is patched, the server
  -- restarts, a day passes.
  pub data Change : World → World → Type 0 where
    run_asked :
        {w : World} (depth : ℕ) (visitor : Visitor) (tester : ℕ) (passport_id : Text) (run_id : ℕ)
        → Change w (record w {
          tables =
              or_same w.tables
                (gate number env w.today depth visitor tester passport_id run_id w.tables);
        })
    tester_asked :
        {w : World} (visitor : Visitor) (before : Tables) (tester_id : Text)
        (addresses : Text × Text) (nickname : Option Text)
        → Change w (record w {
          tables = or_same w.tables (
              start_tester number env w.today visitor before
                (w.next_tester, tester_id)
                addresses
                nickname
                w.tables);
          next_tester = suc w.next_tester;
        })
    patched :
        {w : World} (id : ℕ) (state : RunState) (error : Option Text)
        → Change w (record w { tables = patch_run id state error w.tables })
    restarted :
        {w : World} (error : Text) → Change w (record w { tables = fail_stale_runs error w.tables })
    day_passed : {w : World} → Change w (record w { today = suc w.today })

  pub data Reached : World → Type 0 where
    at_first : Reached empty
    and_then : {v w : World} → Reached v → Change v w → Reached w

-- How many runs are of the day, and of the tester; how many passports are counted for the tester, and
-- in how many rows.
abbrev pub on_day : ℕ → List RunRow → ℕ
on_day d [] = 0
on_day d (r ∷ rs) = (if r.created_on == d then 1 else 0) + on_day d rs

abbrev pub runs_of : ℕ → List RunRow → ℕ
runs_of id [] = 0
runs_of id (r ∷ rs) = (if r.tester == id then 1 else 0) + runs_of id rs

abbrev pub counted : ℕ → List TesterRow → ℕ
counted id [] = 0
counted id (t ∷ ts) = (if t.id == id then t.passport_count else 0) + counted id ts

abbrev pub rows_of : ℕ → List TesterRow → ℕ
rows_of id [] = 0
rows_of id (t ∷ ts) = (if t.id == id then 1 else 0) + rows_of id ts

pub on_day-append : (d : ℕ) (rs ss : List RunRow) → on_day d (rs ++ ss) ≡ on_day d rs + on_day d ss
on_day-append d [] ss = omega arith
on_day-append d (r ∷ rs) ss = omega (arith, on_day-append d rs ss)

pub runs_of-append :
    (d : ℕ) (rs ss : List RunRow) → runs_of d (rs ++ ss) ≡ runs_of d rs + runs_of d ss
runs_of-append d [] ss = omega arith
runs_of-append d (r ∷ rs) ss = omega (arith, runs_of-append d rs ss)

pub counted-append :
    (d : ℕ) (ts us : List TesterRow) → counted d (ts ++ us) ≡ counted d ts + counted d us
counted-append d [] us = omega arith
counted-append d (t ∷ ts) us = omega (arith, counted-append d ts us)

pub rows_of-append :
    (d : ℕ) (ts us : List TesterRow) → rows_of d (ts ++ us) ≡ rows_of d ts + rows_of d us
rows_of-append d [] us = omega arith
rows_of-append d (t ∷ ts) us = omega (arith, rows_of-append d ts us)

-- No row is of a later day, so what counts for today are the rows of today.
pub runs_today-on_day :
    (today : ℕ) (rs : List RunRow)
    → All (λ r. r.created_on ≤ today) rs
    → length (filter (λ r. leb today r.created_on) rs) ≡ on_day today rs
runs_today-on_day today [] h = refl
runs_today-on_day today (r ∷ rs) (le, h) = ground (arith, runs_today-on_day today rs h)

pub rows_of-count_passport :
    (limit : JsNumber) (id d : ℕ) (ts : List TesterRow)
    → rows_of d (count_passport limit id ts) ≡ rows_of d ts
unfolding count_passport
rows_of-count_passport limit id d [] = refl
rows_of-count_passport limit id d (t ∷ ts) = elim (Bool-cases (has_left limit id t)) [
  | inl e ↦ rw e (omega (arith, rows_of-count_passport limit id d ts))
  | inr e ↦ rw e (omega (arith, rows_of-count_passport limit id d ts))
]

pub counted-count_passport_le :
    (limit : JsNumber) (id d : ℕ) (ts : List TesterRow)
    → counted d ts ≤ counted d (count_passport limit id ts)
unfolding count_passport
counted-count_passport_le limit id d [] = omega arith
counted-count_passport_le limit id d (t ∷ ts) = elim (Bool-cases (has_left limit id t)) [
  | inl e ↦ rw e (ground (arith, counted-count_passport_le limit id d ts))
  | inr e ↦ rw e (omega (arith, counted-count_passport_le limit id d ts))
]

-- An increment that is won counts a passport of the tester.
pub counted-count_passport :
    (limit : JsNumber) (id : ℕ) (ts : List TesterRow)
    → any (has_left limit id) ts ≡ true
    → suc (counted id ts) ≤ counted id (count_passport limit id ts)
unfolding count_passport
counted-count_passport limit id [] h = absurd (cc)
counted-count_passport limit id (t ∷ ts) h = elim (Bool-cases (has_left limit id t)) [
  | inl e ↦
      let own : (t.id == id) ≡ true = ground arith in
      rw (e, own) (omega (arith, counted-count_passport_le limit id id ts))
  | inr e ↦ let later = rw e at h in rw e (omega (arith, counted-count_passport limit id ts later))
]

-- A row that is counted up stays within an integer limit.
pub within-count_passport :
    (k id : ℕ) (ts : List TesterRow)
    → All (λ t. t.passport_count ≤ k) ts
    → All (λ t. t.passport_count ≤ k) (count_passport (int k) id ts)
unfolding count_passport
within-count_passport k id [] h = tt
within-count_passport k id (t ∷ ts) (le, h) = elim (Bool-cases (has_left (int k) id t)) [
  | inl e ↦ rw e ((ground arith), within-count_passport k id ts h)
  | inr e ↦ rw e (le, within-count_passport k id ts h)
]

-- A tester with one row at most has no more passports than the limit.
pub counted-le :
    (k id : ℕ) (ts : List TesterRow)
    → All (λ t. t.passport_count ≤ k) ts
    → rows_of id ts ≤ 1
    → (counted id ts ≤ k) × (rows_of id ts ≡ 0 → counted id ts ≡ 0)
counted-le k id [] h one = (omega arith, λ e. refl)
counted-le k id (t ∷ ts) (le, h) one =
    let (within, nothing) = counted-le k id ts h (ground arith) in
    elim (Bool-cases (t.id == id)) [
      | inl e ↦ rw e (let rest = nothing (ground arith) in (omega arith, λ z. absurd (omega arith)))
      | inr e ↦ rw e (omega arith, λ z. omega (arith, nothing (omega arith)))
    ]
