-- ===== src/DemoService/Actions.antt =====
-- The actions of the service: createDemoPassport, demoRunStatus with its view of the queue, demoInfo,
-- the row of the hosted sponsor, the watchdog's choice and detachedWrite.
pub mod Admitted
use nightpass.Base.{
  ℕ, suc, ◌+◌, ◌-◌, ◌*◌, ◌/◌, Bool, true, false, not, ◌&&◌, ◌||◌, List, [], ◌∷◌, filter, find,
  Option, none, some, is_some, Text, codes, text_eq, text_or_empty, lower, length, leb, ltb, ◌==◌,
  or_else, if◌then◌else◌, Result, ok, err, ◌>>=◌, ◌>>◌, require,
}
use nightpass.Base.JsNumber.{
  JsNumber, nan, infinite, minus_infinite, plus, minus, int, num_lt, add_nat,
}
use nightpass.Base.Patterns.{contains}
use nightpass.Base.Retry.{retry}
use nightpass.Base.Splits.{Env}
use nightpass.DemoClaims.{ClaimSet}
use nightpass.DemoClaims.Resolved.{ResolvedClaim, resolved_number, resolved_member, demo_claim_list}
use nightpass.DemoValidation.{
  ProfileError, RawInput, DemoError, DemoInput, DemoValidation, rejected, accepted,
  validate_demo_input,
}
use nightpass.DemoService.{enabled, contract_address, concurrency, start_stagger_ms, max_per_day}
use nightpass.DemoService.Queue.{Demo, Context, queue_depth, admit}
use nightpass.DemoService.Caps.{
  TesterRow, RunRow, RunState, Tables, Refusal, Visitor, runs_today, gate,
}
use nightpass.DemoService.Execute.{resolved_field}

pub data CreateError : Type 0 where
  not_enabled no_vault unknown_tester bad_json primary_not_numeric : CreateError
  bad_input : List DemoError → CreateError
  profile_threw : ProfileError → CreateError
  refused : Refusal → CreateError

abbrev pub found_tester : Option TesterRow → Result CreateError TesterRow
found_tester none = err unknown_tester
found_tester (some t) = ok t

abbrev pub parsed : Option RawInput → Result CreateError RawInput
parsed none = err bad_json
parsed (some raw) = ok raw

abbrev pub checked : Result ProfileError DemoValidation → Result CreateError DemoInput
checked (err e) = err (profile_threw e)
checked (ok (rejected errors)) = err (bad_input errors)
checked (ok (accepted input)) = ok input

abbrev pub numeric_primary : Option ResolvedClaim → Result CreateError ResolvedClaim
numeric_primary (some (resolved_number field v t direction unit label)) =
    ok (resolved_number field v t direction unit label)
numeric_primary _ = err primary_not_numeric

abbrev pub passed : Result Refusal Tables → Result CreateError Tables
passed (ok db) = ok db
passed (err e) = err (refused e)

-- What is answered, with the context that is queued when the request commits.
pub record Created : Type 0 where
  pub run_id : ℕ
  pub passport_id : Text
  pub queue_position : ℕ
  pub context : Context
  pub tables : Tables
  pub demo : Demo

-- `s` is the state at the gate, and `later` what else happened to it before the answer.
abbrev pub answer : Demo → (Demo → Demo) → TesterRow → DemoInput → Text → Tables → Created
answer s later tester input passport_id changed = record {
  run_id = s.next_run;
  passport_id = passport_id;
  queue_position = queue_depth (later (admit s));
  context = record {
    run_id = s.next_run;
    passport_id = passport_id;
    tester_row_id = tester.id;
    tester_id = tester.tester_id;
    input = input;
  };
  tables = changed;
  demo = later (admit s);
}

module _ (number : Text → JsNumber) (env : Env) (sets : Text → Option ClaimSet) where
  -- `raw` is the body after `JSON.parse`, which may throw; `passport_id` is made of the profile, the
  -- time and random bytes. The tester is read from the tables `before`; `db` and `s` are those under the
  -- lock, after which other events, `later`, may come before the answer.
  unfoldable pub create_demo_passport :
      ℕ
      → Visitor
      → Text
      → Option RawInput
      → Text
      → Tables
      → Demo
      → Tables
      → (Demo → Demo)
      → Result CreateError Created
  unfolding enabled contract_address text_eq validate_demo_input demo_claim_list gate admit
      queue_depth
  create_demo_passport today visitor tester_id raw passport_id before s db later = do
    require (enabled env) not_enabled
    require (is_some (contract_address env)) no_vault
    tester ← found_tester (find (λ t. text_eq t.tester_id tester_id) before.testers)
    body ← parsed raw
    input ← checked (validate_demo_input sets body)
    primary ← numeric_primary (
        find (λ c. text_eq (resolved_field c) input.profile.primary)
          (demo_claim_list sets input.profile input.claims))
    changed ←
        passed (gate number env today (queue_depth s) visitor tester.id passport_id s.next_run db)
    ok (answer s later tester input passport_id changed)

-- `this.queue.indexOf(runId)`
unfoldable pub index_of : ℕ → List ℕ → Option ℕ
index_of id [] = none
index_of id (j ∷ js) =
    let later = index_of id js in
    if j == id then some 0 else elim later [ none ↦ none | some i ↦ some (suc i) ]

-- `x * n`
abbrev pub scale : ℕ → JsNumber → JsNumber
scale n (plus p q) = plus (n * p) q
scale n (minus p q) = minus (n * p) q
scale n x = x

-- `Math.max(0, Math.ceil((at - now) / 1000))`
abbrev pub seconds_until : ℕ → JsNumber → JsNumber
seconds_until now nan = nan
seconds_until now infinite = infinite
seconds_until now minus_infinite = int 0
seconds_until now (plus p q) = int (((p - now * suc q) + (1000 * suc q - 1)) / (1000 * suc q))
seconds_until now (minus p q) = int 0

-- `starting_in` is none for -1.
pub record QueueView : Type 0 where
  pub running_count : ℕ
  pub waiting_ahead : ℕ
  pub starting_in : Option JsNumber
  pub queue_position : ℕ

module _ (number : Text → JsNumber) (env : Env) where
  -- `pos < this.concurrency() - runningCount || runningCount === 0`
  abbrev pub has_slot : ℕ → ℕ → Bool
  has_slot pos running = num_lt (int (pos + running)) (concurrency number env) || running == 0

  unfoldable pub queue_view_for : ℕ → ℕ → Demo → QueueView
  unfolding index_of concurrency start_stagger_ms
  queue_view_for now run_id s =
      let running = length s.running in
      elim (index_of run_id s.queue) [
        | none ↦ record {
          running_count = running;
          waiting_ahead = 0;
          starting_in = some (int 0);
          queue_position = 0;
        }
        | some pos ↦ record {
          running_count = running;
          waiting_ahead = pos;
          starting_in =
              if has_slot pos running
              then some (
                  seconds_until now
                    (add_nat s.last_start_at (scale (pos + 1) (start_stagger_ms number env))))
              else none;
          queue_position = pos + running;
        }
      ]

-- `/database is locked|SQLITE_BUSY/i`
unfoldable pub is_contention : Text → Bool
unfolding contains lower
is_contention message =
    contains (codes "database is locked") (lower message)
    || contains (codes "sqlite_busy") (lower message)

-- Three attempts; what an attempt does is a function of its number.
unfoldable pub detached_write : {A : Type 0} → (ℕ → Result Text A) → ℕ × Result Text A
unfolding retry is_contention
detached_write attempt = retry is_contention attempt 2 0

pub data ProbeState : Type 0 where
  cold ready failing : ProbeState

-- The row of the hosted sponsor, as far as it depends on the probe.
pub record SponsorRow : Type 0 where
  pub state : Text
  pub dust_present : Bool
  pub healthy : Bool
  pub error : Text

abbrev pub is_ready : ProbeState → Bool
is_ready ready = true
is_ready _ = false

unfoldable pub hosted_sponsor_row : ProbeState → Text → SponsorRow
hosted_sponsor_row state error = record {
  state = elim state [ cold ↦ codes "warming" | ready ↦ codes "ready" | failing ↦ codes "error" ];
  dust_present = is_ready state;
  healthy = is_ready state;
  error = error;
}
