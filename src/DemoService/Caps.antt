-- ===== src/DemoService/Caps.antt =====
-- The tables of the demo, and what bounds a visitor: the gate of createDemoPassport, startTester, the
-- states of a run's row. Ids are numbers in the order of issue, a day is a number, and a row is stamped
-- with the day it is written on. The lock makes each gate one step.
pub mod Budget
pub mod Limits
pub mod Restart
use nightpass.Base.{
  ℕ, suc, ◌+◌, Bool, true, false, not, ◌&&◌, List, [], ◌∷◌, ◌++◌, map, filter, any, Option, none,
  some, Text, text_eq, length, leb, ◌==◌, if◌then◌else◌, Result, ok, err, ◌>>=◌, ◌>>◌, require,
}
use nightpass.Base.JsNumber.{JsNumber, int, num_le, num_lt}
use nightpass.Base.Splits.{Env}
use nightpass.DemoService.{
  max_queue, max_per_ip_per_day, max_per_day, max_per_tester, ip_exempt_from_cap, enabled,
}

pub record TesterRow : Type 0 where
  pub id : ℕ
  pub tester_id : Text
  pub shielded_address : Text
  pub night_address : Text
  pub nickname : Option Text
  pub client_key : Text
  pub passport_count : ℕ
  pub created_on : ℕ

pub data RunState : Type 0 where
  queued wallet anchoring proving aging publishing done failed : RunState

pub record RunRow : Type 0 where
  pub run_id : ℕ
  pub tester : ℕ
  pub passport_id : Text
  pub state : RunState
  pub error : Option Text
  pub client_key : Text
  pub created_on : ℕ

pub record Tables : Type 0 where
  pub testers : List TesterRow
  pub runs : List RunRow

pub data Refusal : Type 0 where
  not_enabled busy address_budget daily_budget tester_used : Refusal

-- `countToday`
unfoldable pub testers_today : Tables → ℕ → Text → ℕ
testers_today db today client =
    length (filter (λ t. text_eq t.client_key client && leb today t.created_on) db.testers)

-- `runsToday`, of a client and of all
unfoldable pub client_runs_today : Tables → ℕ → Text → ℕ
client_runs_today db today client =
    length (filter (λ r. text_eq r.client_key client && leb today r.created_on) db.runs)

unfoldable pub runs_today : Tables → ℕ → ℕ
runs_today db today = length (filter (λ r. leb today r.created_on) db.runs)

-- The rows of the tester that have passports left.
abbrev pub has_left : JsNumber → ℕ → TesterRow → Bool
has_left limit id t = t.id == id && num_lt (int t.passport_count) limit

-- The conditional increment; it is won if it changed a row.
unfoldable pub count_passport : JsNumber → ℕ → List TesterRow → List TesterRow
count_passport limit id ts =
    map (λ t. if has_left limit id t then record t { passport_count = suc t.passport_count } else t)
      ts

-- `n >= limit`
abbrev pub reached : JsNumber → ℕ → Bool
reached limit n = num_le limit (int n)

-- A request: its address with the digest of it, and the tester.
pub record Visitor : Type 0 where
  pub ip : Text
  pub client_key : Text

abbrev pub new_run : ℕ → Visitor → ℕ → Text → ℕ → RunRow
new_run today visitor tester passport_id run_id = record {
  run_id = run_id;
  tester = tester;
  passport_id = passport_id;
  state = queued;
  error = none;
  client_key = visitor.client_key;
  created_on = today;
}

abbrev pub new_tester : ℕ → Visitor → (ℕ × Text) → (Text × Text) → Option Text → TesterRow
new_tester today visitor ids addresses nickname = record {
  id = ids.0;
  tester_id = ids.1;
  shielded_address = addresses.0;
  night_address = addresses.1;
  nickname = nickname;
  client_key = visitor.client_key;
  passport_count = 0;
  created_on = today;
}

module _ (number : Text → JsNumber) (env : Env) where
  abbrev pub queue_ok : ℕ → Bool
  queue_ok depth = not (reached (max_queue number env) depth)

  abbrev pub client_ok : ℕ → Visitor → Tables → Bool
  client_ok today visitor db = not (
      not (ip_exempt_from_cap env visitor.ip)
      && reached (max_per_ip_per_day number env) (client_runs_today db today visitor.client_key))

  abbrev pub day_ok : ℕ → Tables → Bool
  day_ok today db = not (reached (max_per_day number env) (runs_today db today))

  abbrev pub tester_ok : ℕ → Tables → Bool
  tester_ok tester db = any (has_left (max_per_tester number env) tester) db.testers

  abbrev pub with_run : ℕ → Visitor → ℕ → Text → ℕ → Tables → Tables
  with_run today visitor tester passport_id run_id db = record {
    testers = count_passport (max_per_tester number env) tester db.testers;
    runs = db.runs ++ (new_run today visitor tester passport_id run_id ∷ []);
  }

  -- What happens under the lock, where `depth` is queueDepth().
  unfoldable pub gate : ℕ → ℕ → Visitor → ℕ → Text → ℕ → Tables → Result Refusal Tables
  unfolding client_runs_today runs_today count_passport max_queue max_per_ip_per_day max_per_day
      max_per_tester ip_exempt_from_cap
  gate today depth visitor tester passport_id run_id db = do
    require (queue_ok depth) busy
    require (client_ok today visitor db) address_budget
    require (day_ok today db) daily_budget
    require (tester_ok tester db) tester_used
    ok (with_run today visitor tester passport_id run_id db)

  abbrev pub address_ok : ℕ → Visitor → Tables → Bool
  address_ok today visitor db = not (
      not (ip_exempt_from_cap env visitor.ip)
      && reached (max_per_ip_per_day number env) (testers_today db today visitor.client_key))

  -- `before` are the tables at the first check, `db` those under the lock.
  unfoldable pub start_tester :
      ℕ
      → Visitor
      → Tables
      → (ℕ × Text)
      → (Text × Text)
      → Option Text
      → Tables
      → Result Refusal Tables
  unfolding testers_today max_per_ip_per_day ip_exempt_from_cap enabled
  start_tester today visitor before ids addresses nickname db = do
    require (enabled env) not_enabled
    require (address_ok today visitor before) address_budget
    require (address_ok today visitor db) address_budget
    ok (record db {
      testers = db.testers ++ (new_tester today visitor ids addresses nickname ∷ []);
    })

-- `patchRun` with a state and an error
unfoldable pub patch_run : ℕ → RunState → Option Text → Tables → Tables
patch_run id state error db = record db {
  runs = map (λ r. if r.run_id == id then record r { state = state; error = error } else r) db.runs;
}

-- `state in ('queued', 'wallet', 'anchoring', 'proving', 'publishing')`
abbrev pub is_stale : RunState → Bool
is_stale aging = false
is_stale done = false
is_stale failed = false
is_stale _ = true

-- `failStaleRuns`, where `restarted` is the text of the error.
unfoldable pub fail_stale_runs : Text → Tables → Tables
fail_stale_runs restarted db = record db {
  runs =
      map (λ r. if is_stale r.state then record r { state = failed; error = some restarted } else r)
        db.runs;
}
