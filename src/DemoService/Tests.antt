-- ===== src/DemoService/Tests.antt =====
-- Runs of a demo with two sponsors and two slots.
use nightpass.Base.{
  ℕ, suc, ◌*◌, ◌+◌, ◌≤◌, ◌≡◌, refl, ap, arith, true, false, ◌&&◌, ◌||◌, List, [], ◌∷◌, All,
  Distinct, Option, none, some, is_some, Text, codes, text_eq, lower, length, map, is_hex32,
  is_lower_hex32, ◌==◌, not, any, all, if◌then◌else◌, Result, ok, err, is_ok,
}
use nightpass.Base.JsNumber.{JsNumber, int, nan, is_nan}
use nightpass.Base.Maps.{lookup, insert}
use nightpass.Base.Patterns.{skip_spaces}
use nightpass.Base.Splits.{Env, trim, drop_end, split_on, fields_of}
use nightpass.ProducerWallets.{fee_sponsor_wallet_ids}
use nightpass.DemoClaims.{
  ClaimSet, numeric_claim, validate_claims, validate_loop, claim_field_by_name, check_membership,
  check_numeric, head_text_upto, string_value, number_value,
}
use nightpass.DemoClaims.Catalog.{component_spec}
use nightpass.DemoClaims.Resolved.{demo_claim_list, resolve_all, by_field}
use nightpass.DemoValidation.{
  given, RawInput, DemoInput, demo_profile, is_profile_id, check_heads, validate_demo_input,
}
use nightpass.DemoService.{
  enabled, encryption_key_ok, remote_transport, without_repeats, vault_pool, contract_address,
  ip_exempt_from_cap, max_per_day, max_per_ip_per_day, max_per_tester, max_queue, concurrency,
  start_stagger_ms, wanted_concurrency,
}
use nightpass.DemoService.Leases.{
  VaultLeases, get, set, delete, free_sponsor, acquire_sponsor, no_load, add_load, add_loads,
  least_loaded, pick_vault, acquire_vault,
}
use nightpass.Base.Counts.{drop_id}
use nightpass.DemoService.Queue.{
  finish, find_run, drop_run, Context, Demo, idle, queue_depth, slot_free, must_wait, start_run,
  launch, drain, process_queue, admit, commit, fire_timer, admitted, committed, Reach, begin, next,
}
use nightpass.DemoService.Queue.Sponsors.{Leased, Reach-Leased}
use nightpass.DemoService.Queue.Pool.{Reach-Sponsored}
use nightpass.DemoService.Queue.Order.{started_ids, Ordered, Reach-Ordered}
use nightpass.DemoService.Queue.Progress.{
  Event, run_ends, timer_fires, gate_passed, play, play-started,
}
use nightpass.DemoService.Caps.{
  Tables, Visitor, TesterRow, wallet, anchoring, proving, aging, publishing, done, failed, busy,
  tester_used, new_run, new_tester, client_runs_today, runs_today, testers_today, count_passport,
  gate, start_tester, fail_stale_runs, with_run,
}
use nightpass.DemoService.Caps.Budget.{
  World, empty, or_same, run_asked, tester_asked, on_day, runs_of,
}
use nightpass.DemoService.Caps.Budget.{Reached, at_first, and_then}
use nightpass.DemoService.Caps.Limits.{Reached-caps}
use nightpass.DemoService.Caps.Restart.{is_over, is_aging, fail_stale_runs-over}
use nightpass.DemoService.Polls.{
  poll, poll_from, set_step, set_steps, mirror, anchored, succeeded, timed_out, PassportRow,
  running, waiting, broken, skipped,
}
use nightpass.DemoService.Polls.{done as step_done}
use nightpass.DemoService.Polls.Ending.{Ended, poll-Ended}
use nightpass.DemoService.Execute.{
  initial_steps, claim_steps, statement, proof_patches, proofs_done, registration_hash,
  second_life_hash, register_ownership_enabled,
}
use nightpass.DemoService.Execute.Calls.{
  Answers, Progress, RunError, execute_run, run_body, run_states, warm_sponsor, open_session,
  sync_wallet, register_ownership, anchor_passport, prove_claims, second_life, publish,
  mirror_polls,
}
use nightpass.DemoService.Execute.Outcome.{
  execute_run-is_ok, sponsor_ok, stores, session_ok, body_ok,
}
use nightpass.DemoService.Actions.{Created, answer, create_demo_passport}
use nightpass.DemoService.Actions.Admitted.{Admitted, create_demo_passport-Admitted}

opened : Unit {0}
unfolding enabled encryption_key_ok remote_transport without_repeats vault_pool contract_address
    ip_exempt_from_cap max_per_day max_per_ip_per_day max_per_tester max_queue concurrency
    start_stagger_ms get set delete free_sponsor acquire_sponsor no_load add_load add_loads
    least_loaded pick_vault acquire_vault queue_depth slot_free must_wait start_run launch drain
    process_queue admit commit fire_timer drop_id finish find_run drop_run client_runs_today
    runs_today testers_today count_passport gate start_tester fail_stale_runs poll poll_from
    set_step set_steps mirror initial_steps claim_steps statement proof_patches proofs_done
    registration_hash second_life_hash register_ownership_enabled execute_run run_body run_states
    warm_sponsor open_session sync_wallet register_ownership anchor_passport prove_claims
    second_life publish mirror_polls create_demo_passport lookup insert trim drop_end split_on
    fields_of skip_spaces text_eq lower fee_sponsor_wallet_ids demo_claim_list resolve_all by_field
    validate_claims validate_loop claim_field_by_name check_membership check_numeric head_text_upto
    demo_profile is_profile_id check_heads validate_demo_input is_hex32 is_lower_hex32
opened = tt

abbrev zeros : Text
zeros = codes "0000000000000000000000000000000000000000000000000000000000000000"

abbrev ones : Text
ones = codes "1111111111111111111111111111111111111111111111111111111111111111"

abbrev env : Env
env name =
    if text_eq name (codes "DEMO_ENABLED")
    then some (codes "true")
    else if text_eq name (codes "ENCRYPTION_KEY")
        || text_eq name (codes "PASSPORT_CONTRACT_ADDRESS")
    then some zeros
    else if text_eq name (codes "DEMO_CONCURRENCY")
    then some (codes "2")
    else if text_eq name (codes "PASSPORT_FEE_SPONSOR_WALLET")
    then some (codes "s1, s2")
    else none

abbrev number : Text → JsNumber
number t = if text_eq t (codes "2") then int 2 else nan

abbrev pool : List Text
pool = zeros ∷ ones ∷ []

abbrev first_leased : VaultLeases
first_leased = (0, zeros) ∷ []

abbrev input : DemoInput
input = record { profile = component_spec; head = []; claims = []; second_life = false }

abbrev context : ℕ → Context
context id = record {
  run_id = id;
  passport_id = codes "P";
  tester_row_id = 0;
  tester_id = codes "T";
  input = input;
}

abbrev two : Demo
two = commit number env 10 1 (context 1) (admit (commit number env 5 0 (context 0) (admit idle)))

two-Reach : Reach number env two
two-Reach =
    next (next (next (next begin admitted) (committed 5 0 (context 0))) admitted)
      (committed 10 1 (context 1))

settings :
    (pick_vault pool first_leased ≡ some ones)
    × (remote_transport env ≡ false)
    × (concurrency number env ≡ int 2)
    × (fee_sponsor_wallet_ids env ≡ codes "s1" ∷ codes "s2" ∷ [])
    × (max_per_day number env ≡ int 50)
    × (max_per_tester number env ≡ int 1)
    × (is_nan (wanted_concurrency number env) ≡ false)
unfolding opened
settings = (refl, refl, refl, refl, refl, refl, refl)

-- The two runs end, the later one first, with a request and the timer between.
abbrev all_end : List Event
all_end = gate_passed ∷ timer_fires 50_000 ∷ run_ends 60_000 1 ∷ run_ends 70_000 0 ∷ []

-- The second run waits for the stagger, and has the second sponsor afterwards.
two_runs :
    (started_ids two ≡ 0 ∷ [])
    × (two.queue ≡ 1 ∷ [])
    × (two.stagger_timer ≡ true)
    × (map (λ l. l.sponsor) (fire_timer number env 50_000 two).started
        ≡ some (codes "s1") ∷ some (codes "s2") ∷ [])
    × (started_ids (play number env all_end two) ≡ 0 ∷ 1 ∷ [])
unfolding opened
two_runs = (refl, refl, refl, refl, refl)

Reach-Leased_example : Leased two
Reach-Leased_example = Reach-Leased number env two two-Reach

two_wallets : Distinct (λ x. x) (fee_sponsor_wallet_ids env)
unfolding text_eq
two_wallets = rw settings.3 (((λ e. cc (ap (text_eq (codes "s1")) e)), tt), (tt, tt))

Reach-Sponsored_example : All (λ l. is_some l.sponsor ≡ true) two.started
Reach-Sponsored_example =
    Reach-Sponsored number env settings.1 two_wallets (rw settings.3 (omega arith)) two two-Reach

Reach-Ordered_example : Ordered two
Reach-Ordered_example = Reach-Ordered number env two two-Reach

two_depth : queue_depth two ≡ 2
unfolding opened
two_depth = refl

play-started_example :
    (started_ids (play number env all_end two) ≡ two.arrived)
    × ((play number env all_end two).queue ≡ [])
    × ((play number env all_end two).running ≡ [])
play-started_example =
    play-started number env settings.6 all_end two two-Reach (omega (arith, two_depth))

abbrev visitor : Visitor
visitor = record { ip = codes "1.2.3.4"; client_key = codes "k" }

abbrev no_tables : Tables
no_tables = record { testers = []; runs = [] }

abbrev joined : World
joined = record empty {
  tables =
      or_same no_tables
        (start_tester number env 0 visitor no_tables (0, codes "T") ([], []) none no_tables);
  next_tester = 1;
}

abbrev asked : World
asked = record joined {
  tables = or_same joined.tables (gate number env 0 0 visitor 0 (codes "P") 0 joined.tables);
}

asked-Reached : Reached number env asked
asked-Reached =
    and_then (and_then at_first (tester_asked visitor no_tables (codes "T") ([], []) none))
      (run_asked 0 visitor 0 (codes "P") 0)

asked_runs :
    (length asked.tables.runs ≡ 1)
    × (gate number env 0 0 visitor 0 (codes "P") 1 asked.tables ≡ err tester_used)
    × (gate number env 0 5 visitor 0 (codes "P") 1 asked.tables ≡ err busy)
unfolding opened
asked_runs = (refl, refl, refl)

Reached-caps_example :
    ((d : ℕ) → on_day d asked.tables.runs ≤ 50) × ((id : ℕ) → runs_of id asked.tables.runs ≤ 1)
Reached-caps_example = Reached-caps number env 50 1 settings.4 settings.5 asked asked-Reached

abbrev in_second_life : Tables
in_second_life = record {
  testers = [];
  runs =
      record (new_run 0 visitor 0 (codes "P") 0) { state = aging }
      ∷ new_run 0 visitor 0 (codes "Q") 1
      ∷ [];
}

fail_stale_runs-over_example :
    all (λ r. is_over r.state) (fail_stale_runs (codes "restart") in_second_life).runs
    ≡ not (any (λ r. is_aging r.state) in_second_life.runs)
fail_stale_runs-over_example = fail_stale_runs-over (codes "restart") in_second_life

-- The third poll finds the row.
abbrev polls : ℕ → Result Text (Option ℕ)
polls i = if i == 2 then ok (some 7) else ok none

abbrev clock : ℕ → ℕ
clock i = 5000 * suc i

polls_run : (poll 4 polls clock 0 ≡ ok 7) × (poll 1 polls clock 0 ≡ err timed_out)
unfolding opened
polls_run = (refl, refl)

poll-Ended_example : Ended polls clock (0 + 5000 * 4) 0 (poll 4 polls clock 0)
poll-Ended_example = poll-Ended 4 polls clock 0 (λ j. omega arith)

abbrev anchored_row : PassportRow
anchored_row = record { status = anchored; attestation_tx_hash = some (codes "h") }

-- The second life fails, and the publication is refused.
abbrev answers : Answers
answers = record {
  store = λ state. none;
  warm = ok (false, none);
  seed = ok (codes "seed");
  viewing_key = ok (codes "key");
  connect = ok (codes "session");
  signing = ok true;
  synced = ok tt;
  derived = err (codes "x");
  registrar_session = err (codes "x");
  registration = err (codes "x");
  registered = err (codes "x");
  created = ok true;
  anchor_txs =
      (record { kind = codes "attest"; tx_hash = some (codes "h"); succeeded = true } ∷ []) ∷ [];
  anchor = ok anchored_row;
  proven = ok true;
  proofs = ok (record { status = succeeded; tx_hash = some (codes "p"); source_field = none } ∷ []);
  telemetry = err (codes "x");
  repurposed = ok false;
  reanchor = err (codes "x");
  published = err (codes "503");
}

abbrev shown : JsNumber → Text
shown n = codes "n"

abbrev at_start : Progress
at_start = record {
  writes = [];
  steps = initial_steps shown env true [];
  signer = false;
  session = none;
}

abbrev at_end : Result RunError (Unit {0}) × Progress
at_end = execute_run env shown answers (some (codes "s1")) true [] at_start

executed :
    (is_ok at_end.0 ≡ true)
    × (at_end.1.writes ≡ done ∷ publishing ∷ aging ∷ proving ∷ anchoring ∷ wallet ∷ [])
    × (map (λ s. s.status) at_end.1.steps
        ≡ step_done ∷ step_done ∷ running ∷ waiting ∷ step_done ∷ broken ∷ skipped ∷ [])
    × (run_states env shown (record answers { anchor = err (codes "timed out") }) none true []
        ≡ failed ∷ anchoring ∷ wallet ∷ [])
unfolding opened
executed = (refl, refl, refl, refl)

execute_run-is_ok_example :
    is_ok (execute_run env shown answers (some (codes "s1")) true [] at_start).0 ≡ (
      sponsor_ok env shown answers (some (codes "s1"))
      && (stores env shown answers wallet
          && (session_ok env shown answers && body_ok env shown answers true)))
execute_run-is_ok_example = execute_run-is_ok env shown answers (some (codes "s1")) true [] at_start

abbrev sets : Text → Option ClaimSet
sets id = none

abbrev raw : RawInput
raw = record {
  profile = given (codes "component");
  head = λ name.
      if text_eq name (codes "SafetyClass")
      then record { as_text = codes " 2"; as_number = nan }
      else record { as_text = codes "Nozzle_1 "; as_number = int 7 };
  claims = some (
      record { field = codes "cobaltContentPpm"; member = []; value = int 3; threshold = int 4 }
      ∷ []);
  second_life = false;
}

abbrev value : DemoInput
value = record {
  profile = component_spec;
  head =
      string_value (codes "Nozzle_1")
      ∷ string_value (codes "Nozzle_1")
      ∷ number_value (int 7)
      ∷ string_value (codes "2")
      ∷ [];
  claims = numeric_claim (codes "cobaltContentPpm") (int 3) (int 4) ∷ [];
  second_life = false;
}

abbrev tester : TesterRow
tester = new_tester 0 visitor (0, codes "T") ([], []) none

-- Before the answer, another request passes the gate.
abbrev others : Demo → Demo
others s = admit s

abbrev known : Tables
known = record { testers = tester ∷ []; runs = [] }

abbrev created : Created
created =
    answer idle others tester value (codes "P")
      (with_run number env 0 visitor 0 (codes "P") 0 known)

creates :
    create_demo_passport number env sets 0 visitor
      (codes "T")
      (some raw)
      (codes "P")
      known
      idle
      known
      others
    ≡ ok created
unfolding opened
creates = refl

create_demo_passport-Admitted_example :
    Admitted number env sets 0 visitor (codes "T") (some raw) known idle known others created
create_demo_passport-Admitted_example =
    create_demo_passport-Admitted number env sets 0 visitor (codes "T") (some raw) (codes "P") known
      idle known others created creates
