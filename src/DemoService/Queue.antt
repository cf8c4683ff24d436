-- ===== src/DemoService/Queue.antt =====
-- The queue of runs and its launcher (processQueue), with the events that change them. A run id is
-- the number of its request; `Date.now()` is one time in a call.
pub mod Rounds
pub mod Sponsors
pub mod Pool
pub mod Order
pub mod Progress
use nightpass.Base.{
  ℕ, suc, ◌+◌, Bool, true, false, not, ◌&&◌, List, [], ◌∷◌, ◌++◌, any, Option, none, some, is_some,
  Text, ◌==◌, ltb, length, if◌then◌else◌,
}
use nightpass.Base.Counts.{drop_id}
use nightpass.Base.JsNumber.{JsNumber, int, num_lt, add_nat}
use nightpass.Base.Maps.{remove}
use nightpass.Base.Splits.{Env}
use nightpass.DemoValidation.{DemoInput}
use nightpass.DemoService.{concurrency, start_stagger_ms}
use nightpass.DemoService.Leases.{
  RunMap, get, set, delete, SponsorLeases, VaultLeases, acquire_sponsor, acquire_vault,
}

-- An entry of `this.pending`.
pub record Context : Type 0 where
  pub run_id : ℕ
  pub passport_id : Text
  pub tester_row_id : ℕ
  pub tester_id : Text
  pub input : DemoInput

-- A call of executeRun, with what its promise holds on to.
pub record Launch : Type 0 where
  pub run_id : ℕ
  pub context : Context
  pub sponsor : Option Text
  pub vault : Option Text

-- The service's state. `running` has the calls of the ids in `this.running`; `uncommitted` are requests that
-- passed the gate and have not committed; `started` are all calls of executeRun in order, and `arrived` all ids
-- that were queued.
pub record Demo : Type 0 where
  pub queue : List ℕ
  pub pending : RunMap Context
  pub running : List Launch
  pub sponsor_leases : SponsorLeases
  pub vault_leases : VaultLeases
  pub last_start_at : ℕ
  pub stagger_timer : Bool
  pub next_run : ℕ
  pub uncommitted : List ℕ
  pub started : List Launch
  pub arrived : List ℕ

abbrev pub idle : Demo
idle = record {
  queue = [];
  pending = [];
  running = [];
  sponsor_leases = [];
  vault_leases = [];
  last_start_at = 0;
  stagger_timer = false;
  next_run = 0;
  uncommitted = [];
  started = [];
  arrived = [];
}

unfoldable pub queue_depth : Demo → ℕ
queue_depth s = length s.queue + length s.running

-- The run of the id is taken out of the list.
unfoldable pub drop_run : ℕ → List Launch → List Launch
drop_run id [] = []
drop_run id (l ∷ ls) = let rest = drop_run id ls in if l.run_id == id then ls else l ∷ rest

unfoldable pub find_run : ℕ → List Launch → Option Launch
find_run id [] = none
find_run id (l ∷ ls) = if l.run_id == id then some l else find_run id ls

-- `if (sponsor) sponsorLeases.delete(sponsor)`
abbrev pub drop_sponsor : Option Text → SponsorLeases → SponsorLeases
drop_sponsor none leases = leases
drop_sponsor (some w) leases = remove w leases

-- A request that passed the gate of createDemoPassport has its id.
unfoldable pub admit : Demo → Demo
admit s = record s { next_run = suc s.next_run; uncommitted = s.uncommitted ++ (s.next_run ∷ []) }

-- The request was rolled back.
unfoldable pub roll_back : ℕ → Demo → Demo
unfolding drop_id
roll_back id s = record s { uncommitted = drop_id id s.uncommitted }

-- The run has left the maps.
abbrev pub ended : ℕ → Launch → Demo → Demo
ended id l s = record s {
  running = drop_run id s.running;
  vault_leases = delete id s.vault_leases;
  sponsor_leases = drop_sponsor l.sponsor s.sponsor_leases;
}

module _ (number : Text → JsNumber) (env : Env) where
  unfoldable pub slot_free : Demo → Bool
  unfolding concurrency
  slot_free s = num_lt (int (length s.running)) (concurrency number env)

  -- `this.running.size > 0 && wait > 0`
  unfoldable pub must_wait : ℕ → Demo → Bool
  unfolding start_stagger_ms
  must_wait now s =
      ltb 0 (length s.running)
      && num_lt (int now) (add_nat s.last_start_at (start_stagger_ms number env))

  -- The rest of a round, from the leases on.
  unfoldable pub start_run : ℕ → Context → Demo → Demo
  unfolding acquire_sponsor acquire_vault
  start_run id ctx s =
      let sponsor = acquire_sponsor env id s.sponsor_leases in
      let vault = acquire_vault env id s.vault_leases in
      let l : Launch = record {
        run_id = id;
        context = ctx;
        sponsor = sponsor.0;
        vault = vault.0;
      } in
      record s {
        sponsor_leases = sponsor.1;
        vault_leases = vault.1;
        running = s.running ++ (l ∷ []);
        started = s.started ++ (l ∷ []);
      }

  unfoldable pub launch : ℕ → ℕ → Demo → Demo
  unfolding get delete start_run
  launch now id s =
      let taken = record s { last_start_at = now; pending = delete id s.pending } in
      elim (get id s.pending) [ none ↦ taken | some ctx ↦ start_run id ctx taken ]

  -- The rounds of the loop on what is left of the queue.
  unfoldable pub drain : ℕ → List ℕ → Demo → Demo
  unfolding slot_free must_wait launch
  drain now [] s = record s { queue = [] }
  drain now (id ∷ rest) s =
      let later = drain now rest (launch now id s) in
      if slot_free s
      then (if must_wait now s then record s { queue = id ∷ rest; stagger_timer = true } else later)
      else record s { queue = id ∷ rest }

  unfoldable pub process_queue : ℕ → Demo → Demo
  unfolding drain
  process_queue now s = drain now s.queue s

  -- A request committed, and is queued ('succeeded').
  unfoldable pub commit : ℕ → ℕ → Context → Demo → Demo
  unfolding process_queue set drop_id
  commit now id ctx s =
      if any (λ j. j == id) s.uncommitted
      then process_queue now (record s {
        uncommitted = drop_id id s.uncommitted;
        queue = s.queue ++ (id ∷ []);
        arrived = s.arrived ++ (id ∷ []);
        pending = set id ctx s.pending;
      })
      else s

  -- The `finally` of a run, however it ended.
  unfoldable pub finish : ℕ → ℕ → Demo → Demo
  unfolding process_queue find_run drop_run delete remove
  finish now id s = elim (find_run id s.running) [
    | none ↦ s
    | some l ↦ process_queue now (ended id l s)
  ]

  -- The timer of the stagger fires.
  unfoldable pub fire_timer : ℕ → Demo → Demo
  unfolding process_queue
  fire_timer now s =
      if s.stagger_timer then process_queue now (record s { stagger_timer = false }) else s

  pub data Step : Demo → Demo → Type 0 where
    admitted : {s : Demo} → Step s (admit s)
    committed : {s : Demo} (now id : ℕ) (ctx : Context) → Step s (commit now id ctx s)
    rolled_back : {s : Demo} (id : ℕ) → Step s (roll_back id s)
    finished : {s : Demo} (now id : ℕ) → Step s (finish now id s)
    timer_fired : {s : Demo} (now : ℕ) → Step s (fire_timer now s)

  pub data Reach : Demo → Type 0 where
    begin : Reach idle
    next : {s t : Demo} → Reach s → Step s t → Reach t
