-- ===== src/DemoService/Queue/Rounds.antt =====
-- What each change of the state keeps holds after any sequence of events; and what a free slot means.
use nightpass.Base.{
  ℕ, suc, ◌≤◌, ◌<◌, ◌≡◌, inl, inr, arith, Bool, true, false, List, [], ◌∷◌, ◌++◌, some, Text, ◌==◌,
  length, any, Bool-cases, Option-cases, if◌then◌else◌,
}
use nightpass.Base.Counts.{drop_id}
use nightpass.Base.JsNumber.{
  JsNumber, int, num_max, num_min, num_lt, nan, infinite, minus_infinite, plus, minus,
}
use native.Mathlib.Decide.{dec_lt}
use native.Mathlib.Nat.{mul-le-mul_right}
use nightpass.Base.Splits.{Env}
use nightpass.ProducerWallets.{fee_sponsor_wallet_ids}
use nightpass.DemoService.{concurrency, or_one, remote_transport, wanted_concurrency}
use nightpass.DemoService.Leases.{set}
use nightpass.DemoService.Queue.{
  Context, Launch, Demo, idle, ended, find_run, slot_free, must_wait, launch, drain, process_queue,
  admit, commit, roll_back, finish, fire_timer, Step, admitted, committed, rolled_back, finished,
  timer_fired, Reach, begin, next,
}

capped-lt :
    (n p : ℕ) (w : JsNumber)
    → 1 ≤ p
    → num_lt (int n) (num_max (int 1) (num_min (int p) w)) ≡ true
    → n < p
capped-lt n p nan one h = absurd (cc)
capped-lt n p infinite one h = ground arith
capped-lt n p minus_infinite one h = ground arith
capped-lt n p (minus r k) one h = ground arith
capped-lt n p (plus r k) one h = elim (dec_lt n p) [
  | yes lt ↦ lt
  | no ge ↦ let le : p ≤ n = omega arith in ground (arith, mul-le-mul_right (suc k) le)
]

module _ (number : Text → JsNumber) (env : Env) (P : Demo → Type 0) where
  -- Each change of the state keeps the predicate: a round of the launcher with the queue that it
  -- leaves, and what an event does before it calls the launcher.
  pub record Inductive : Type 0 where
    pub begins : P idle
    pub rests : (t : Bool) (s : Demo) → P s → P (record s { stagger_timer = t })
    pub launches :
        (now id : ℕ) (rest : List ℕ) (s : Demo)
        → slot_free number env s ≡ true
        → P (record s { queue = id ∷ rest })
        → P (record (launch number env now id s) { queue = rest })
    pub admits : (s : Demo) → P s → P (admit s)
    pub queues :
        (id : ℕ) (ctx : Context) (s : Demo)
        → any (λ j. j == id) s.uncommitted ≡ true
        → P s
        → P (record s {
          uncommitted = drop_id id s.uncommitted;
          queue = s.queue ++ (id ∷ []);
          arrived = s.arrived ++ (id ∷ []);
          pending = set id ctx s.pending;
        })
    pub rolls_back : (id : ℕ) (s : Demo) → P s → P (roll_back id s)
    pub ends :
        (id : ℕ) (l : Launch) (s : Demo) → find_run id s.running ≡ some l → P s → P (ended id l s)

module _ (number : Text → JsNumber) (env : Env) {P : Demo → Type 0}
    (kept : Inductive number env P) where
  drain-keeps :
      (now : ℕ) (q : List ℕ) (s : Demo) → P (record s { queue = q }) → P (drain number env now q s)
  unfolding drain
  drain-keeps now [] s h = h
  drain-keeps now (id ∷ rest) s h = elim (Bool-cases (slot_free number env s)) [
    | inr e ↦ rw e h
    | inl e ↦ elim (Bool-cases (must_wait number env now s)) [
      | inl wait ↦ rw (e, wait) (kept.rests true (record s { queue = id ∷ rest }) h)
      | inr go ↦
          rw (e, go)
            (drain-keeps now rest (launch number env now id s) (kept.launches now id rest s e h))
    ]
  ]

  pub process_queue-keeps : (now : ℕ) (s : Demo) → P s → P (process_queue number env now s)
  unfolding process_queue
  process_queue-keeps now s h = drain-keeps now s.queue s h

  commit-keeps : (now id : ℕ) (ctx : Context) (s : Demo) → P s → P (commit number env now id ctx s)
  unfolding commit
  commit-keeps now id ctx s h = elim (Bool-cases (any (λ j. j == id) s.uncommitted)) [
    | inr e ↦ rw e h
    | inl e ↦ rw e (process_queue-keeps now _ (kept.queues id ctx s e h))
  ]

  finish-keeps : (now id : ℕ) (s : Demo) → P s → P (finish number env now id s)
  unfolding finish
  finish-keeps now id s h = elim (Option-cases (find_run id s.running)) [
    | inl e ↦ rw (e, finish) h
    | inr (l, e) ↦ rw (e, finish) (process_queue-keeps now _ (kept.ends id l s e h))
  ]

  fire_timer-keeps : (now : ℕ) (s : Demo) → P s → P (fire_timer number env now s)
  unfolding fire_timer
  fire_timer-keeps now s h =
      either s.stagger_timer _ s (process_queue-keeps now _ (kept.rests false s h)) h
    where
      either : (b : Bool) (x y : Demo) → P x → P y → P (if b then x else y)
      either true x y h _ = h
      either false x y _ h = h

  Step-keeps : {s t : Demo} → Step number env s t → P s → P t
  Step-keeps {s} admitted h = kept.admits s h
  Step-keeps {s} (committed now id ctx) h = commit-keeps now id ctx s h
  Step-keeps {s} (rolled_back id) h = kept.rolls_back id s h
  Step-keeps {s} (finished now id) h = finish-keeps now id s h
  Step-keeps {s} (timer_fired now) h = fire_timer-keeps now s h

  pub Reach-keeps : (s : Demo) → Reach number env s → P s
  Reach-keeps s begin = kept.begins
  Reach-keeps s (next {s = o} r step) = Step-keeps step (Reach-keeps o r)

module _ (number : Text → JsNumber) (env : Env) where
  -- A free slot, where the setting is an integer.
  pub slot_free-lt :
      (k : ℕ) (s : Demo)
      → concurrency number env ≡ int k
      → slot_free number env s ≡ true
      → length s.running < k
  unfolding slot_free
  slot_free-lt k s e h = let free = rw e at h in ground arith

  -- Without the remote lane the slots are at most the sponsors, or one.
  pub slot_free-sponsors :
      (s : Demo)
      → remote_transport env ≡ false
      → slot_free number env s ≡ true
      → length s.running < or_one (length (fee_sponsor_wallet_ids env))
  unfolding slot_free concurrency
  slot_free-sponsors s local h =
      capped-lt (length s.running) (or_one (length (fee_sponsor_wallet_ids env)))
        (wanted_concurrency number env) (ground arith) (rw local at h)
