-- ===== src/DemoService/Queue/Progress.antt =====
-- Every queued run is started, if those in flight end.
use nightpass.Base.{
  ℕ, zero, suc, ◌+◌, ◌≤◌, ◌≡◌, ◌≢◌, inl, inr, refl, sym, ap, ◌∙◌, arith, Bool, true, false, List,
  [], ◌∷◌, ◌++◌, append-nil, some, Text, any, length, length-append, Bool-cases, Option-cases,
  if◌then◌else◌, ◌==◌,
}
use nightpass.Base.JsNumber.{
  JsNumber, nan, infinite, minus_infinite, plus, minus, int, is_nan, num_lt, num_max, num_min,
}
use nightpass.Base.Splits.{Env}
use nightpass.ProducerWallets.{fee_sponsor_wallet_ids}
use nightpass.DemoService.{concurrency, or_one, remote_transport, wanted_concurrency}
use nightpass.DemoService.Leases.{get}
use nightpass.DemoService.Queue.{
  Launch, Demo, queue_depth, drop_run, ended, find_run, slot_free, must_wait, start_run, launch,
  drain, process_queue, admit, commit, roll_back, finish, fire_timer, Step, admitted, committed,
  rolled_back, finished, timer_fired, Reach, begin, next,
}
use nightpass.DemoService.Queue.Order.{started_ids, Reach-Ordered}

-- If no run is in flight, none waits.
abbrev pub Busy : Demo → Type 0
Busy s = length s.running ≡ 0 → s.queue ≡ []

max-positive : (w : JsNumber) → is_nan w ≡ false → num_lt (int 0) (num_max (int 1) w) ≡ true
max-positive nan h = absurd (cc)
max-positive infinite h = refl
max-positive minus_infinite h = refl
max-positive (plus p q) h = ground arith
max-positive (minus p q) h = ground arith

min-number : (p : ℕ) (w : JsNumber) → is_nan w ≡ false → is_nan (num_min (int p) w) ≡ false
min-number p nan h = absurd (cc)
min-number p infinite h = refl
min-number p minus_infinite h = refl
min-number p (plus r s) h = ground arith
min-number p (minus r s) h = ground arith

length-drop_run :
    (id : ℕ) (ls : List Launch) (l : Launch)
    → find_run id ls ≡ some l
    → suc (length (drop_run id ls)) ≡ length ls
unfolding find_run drop_run
length-drop_run id [] l h = absurd (cc)
length-drop_run id (k ∷ ks) l h = elim (Bool-cases (k.run_id == id)) [
  | inl e ↦ rw e refl
  | inr e ↦ rw e (ap suc (length-drop_run id ks l (rw e at h)))
]

found_first : (l : Launch) (ls ks : List Launch) → ks ≡ l ∷ ls → find_run l.run_id ks ≡ some l
unfolding find_run
found_first l ls ks e = rw e (ground arith)

length-zero {ℓ} : {A : Type ℓ} (xs : List A) → length xs ≡ 0 → xs ≡ []
length-zero [] h = refl
length-zero (x ∷ xs) h = absurd (omega arith)

depth-zero : (s : Demo) → queue_depth s ≡ 0 → (s.queue ≡ []) × (s.running ≡ [])
unfolding queue_depth
depth-zero s h = (length-zero s.queue (omega arith), length-zero s.running (omega arith))

-- The run in flight that a number means: the last, if there are fewer.
abbrev pub chosen : ℕ → Launch → List Launch → Launch
chosen which l [] = l
chosen zero l (m ∷ ms) = l
chosen (suc which) l (m ∷ ms) = chosen which m ms

chosen-found :
    (which : ℕ) (l : Launch) (ls : List Launch)
    → (k : Launch) × (find_run (chosen which l ls).run_id (l ∷ ls) ≡ some k)
unfolding find_run
chosen-found which l [] = (l, ground arith)
chosen-found zero l (m ∷ ms) = (l, ground arith)
chosen-found (suc which) l (m ∷ ms) =
    let (k, e) = chosen-found which m ms in
    elim (Bool-cases (l.run_id == (chosen which m ms).run_id)) [
      | inl f ↦ (l, rw f refl)
      | inr f ↦ (k, rw f e)
    ]

-- What happens while no request commits: a run in flight ends, whichever it is, the timer fires, a request
-- passes the gate, or one is rolled back.
pub data Event : Type 0 where
  run_ends : (now which : ℕ) → Event
  timer_fires : (now : ℕ) → Event
  gate_passed : Event
  given_up : (id : ℕ) → Event

-- How many runs end.
abbrev pub ends : List Event → ℕ
ends [] = 0
ends (run_ends now which ∷ events) = suc (ends events)
ends (_ ∷ events) = ends events

module _ (number : Text → JsNumber) (env : Env) where
  -- The run of the number ends, if any is in flight.
  abbrev end_one : ℕ → ℕ → List Launch → Demo → Demo
  end_one now which [] s = s
  end_one now which (l ∷ ls) s = finish number env now (chosen which l ls).run_id s

  abbrev pub happen : Event → Demo → Demo
  happen (run_ends now which) s = end_one now which s.running s
  happen (timer_fires now) s = fire_timer number env now s
  happen gate_passed s = admit s
  happen (given_up id) s = roll_back id s

  abbrev pub play : List Event → Demo → Demo
  play [] s = s
  play (e ∷ events) s = play events (happen e s)

  launch-depth :
      (now id : ℕ) (s : Demo) → length (launch number env now id s).running ≤ suc (length s.running)
  unfolding launch start_run
  launch-depth now id s = elim (Option-cases (get id s.pending)) [
    | inl e ↦ rw (e, launch) (omega arith)
    | inr (ctx, e) ↦ rw (e, launch) (rw (length-append s.running (_ ∷ [])) (omega arith))
  ]

  launch-arrived : (now id : ℕ) (s : Demo) → (launch number env now id s).arrived ≡ s.arrived
  unfolding launch start_run
  launch-arrived now id s = elim (Option-cases (get id s.pending)) [
    | inl e ↦ rw (e, launch) refl
    | inr (ctx, e) ↦ rw (e, launch) refl
  ]

  drain-depth :
      (now : ℕ) (q : List ℕ) (s : Demo)
      → queue_depth (drain number env now q s) ≤ length q + length s.running
  unfolding drain queue_depth
  drain-depth now [] s = omega arith
  drain-depth now (id ∷ rest) s = elim (Bool-cases (slot_free number env s)) [
    | inr e ↦ rw e (omega arith)
    | inl e ↦ elim (Bool-cases (must_wait number env now s)) [
      | inl wait ↦ rw (e, wait) (omega arith)
      | inr go ↦
          rw (e, go)
            (omega
              (arith, drain-depth now rest (launch number env now id s), launch-depth now id s))
    ]
  ]

  drain-arrived : (now : ℕ) (q : List ℕ) (s : Demo) → (drain number env now q s).arrived ≡ s.arrived
  unfolding drain
  drain-arrived now [] s = refl
  drain-arrived now (id ∷ rest) s = elim (Bool-cases (slot_free number env s)) [
    | inr e ↦ rw e refl
    | inl e ↦ elim (Bool-cases (must_wait number env now s)) [
      | inl wait ↦ rw (e, wait) refl
      | inr go ↦
          rw (e, go) (drain-arrived now rest (launch number env now id s) ∙ launch-arrived now id s)
    ]
  ]

  must_wait-runs : (now : ℕ) (s : Demo) → must_wait number env now s ≡ true → length s.running ≢ 0
  unfolding must_wait
  must_wait-runs now s h none_runs = absurd (cc (rw none_runs at h))

  module _ (numeric : is_nan (wanted_concurrency number env) ≡ false) where
    -- Whatever the settings, there is a slot while no run is in flight.
    slot_free-idle : (s : Demo) → length s.running ≡ 0 → slot_free number env s ≡ true
    unfolding slot_free concurrency
    slot_free-idle s h = rw h (elim (Bool-cases (remote_transport env)) [
      | inl e ↦ rw e (max-positive (wanted_concurrency number env) numeric)
      | inr e ↦ rw e (
          max-positive (num_min (int (or_one (length (fee_sponsor_wallet_ids env)))) _)
            (min-number (or_one (length (fee_sponsor_wallet_ids env))) _ numeric))
    ])

    drain-Busy : (now : ℕ) (q : List ℕ) (s : Demo) → Busy (drain number env now q s)
    unfolding drain
    drain-Busy now [] s = λ no_run. refl
    drain-Busy now (id ∷ rest) s = elim (Bool-cases (slot_free number env s)) [
      | inr e ↦ rw e (λ no_run. absurd (cc (slot_free-idle s no_run)))
      | inl e ↦ elim (Bool-cases (must_wait number env now s)) [
        | inl wait ↦ rw (e, wait) (λ no_run. absurd (must_wait-runs now s wait no_run))
        | inr go ↦ rw (e, go) (drain-Busy now rest (launch number env now id s))
      ]
    ]

    process_queue-Busy : (now : ℕ) (s : Demo) → Busy (process_queue number env now s)
    unfolding process_queue
    process_queue-Busy now s = drain-Busy now s.queue s

    finish-Busy : (now id : ℕ) (s : Demo) → Busy s → Busy (finish number env now id s)
    unfolding finish
    finish-Busy now id s h = elim (Option-cases (find_run id s.running)) [
      | inl e ↦ rw (e, finish) h
      | inr (l, e) ↦ rw (e, finish) (process_queue-Busy now _)
    ]

    Step-Busy : {s t : Demo} → Step number env s t → Busy s → Busy t
    unfolding admit roll_back commit fire_timer
    Step-Busy admitted h = h
    Step-Busy {s} (committed now id ctx) h = elim (Bool-cases (any (λ j. j == id) s.uncommitted)) [
      | inr e ↦ rw e h
      | inl e ↦ rw e (process_queue-Busy now _)
    ]
    Step-Busy (rolled_back id) h = h
    Step-Busy {s} (finished now id) h = finish-Busy now id s h
    Step-Busy {s} (timer_fired now) h = either s.stagger_timer _ s (process_queue-Busy now _) h
      where
        either : (b : Bool) (x y : Demo) → Busy x → Busy y → Busy (if b then x else y)
        either true x y h _ = h
        either false x y _ h = h

    Reach-Busy : (s : Demo) → Reach number env s → Busy s
    Reach-Busy s begin = λ no_run. refl
    Reach-Busy s (next {s = o} r step) = Step-Busy step (Reach-Busy o r)

    -- The end of a run takes one of those that wait or are in flight away.
    finish-depth :
        (now id : ℕ) (s : Demo) (l : Launch)
        → find_run id s.running ≡ some l
        → suc (queue_depth (finish number env now id s)) ≤ queue_depth s
    unfolding finish process_queue queue_depth
    finish-depth now id s l e =
        rw (e, finish)
          (omega (arith, drain-depth now s.queue (ended id l s), length-drop_run id s.running l e))

    finish-arrived :
        (now id : ℕ) (s : Demo) (l : Launch)
        → find_run id s.running ≡ some l
        → (finish number env now id s).arrived ≡ s.arrived
    unfolding finish process_queue
    finish-arrived now id s l e = rw (e, finish) (drain-arrived now s.queue (ended id l s))

    fire_timer-keeps :
        (now : ℕ) (s : Demo)
        → (queue_depth (fire_timer number env now s) ≤ queue_depth s)
          × ((fire_timer number env now s).arrived ≡ s.arrived)
    unfolding fire_timer process_queue queue_depth
    fire_timer-keeps now s = elim (Bool-cases s.stagger_timer) [
      | inr e ↦ rw e (omega arith, refl)
      | inl e ↦ rw e (
        drain-depth now s.queue (record s { stagger_timer = false }),
        drain-arrived now s.queue (record s { stagger_timer = false }),
      )
    ]

    end_one-depth :
        (now which n : ℕ) (s : Demo) (ls : List Launch)
        → s.running ≡ ls
        → Reach number env s
        → queue_depth s ≤ suc n
        → Reach number env (end_one now which ls s)
          × (queue_depth (end_one now which ls s) ≤ n)
          × ((end_one now which ls s).arrived ≡ s.arrived)
    unfolding queue_depth
    end_one-depth now which n s [] e r h =
        let none_waits = Reach-Busy s r (ap length e) in (r, rw (e, none_waits) (omega arith), refl)
    end_one-depth now which n s (l ∷ ls) e r h =
        let (k, found) = chosen-found which l ls in
        let there : find_run (chosen which l ls).run_id s.running ≡ some k = rw e found in
        (
          next r (finished now (chosen which l ls).run_id),
          omega (arith, finish-depth now (chosen which l ls).run_id s k there),
          finish-arrived now (chosen which l ls).run_id s k there,
        )

    play-depth :
        (events : List Event) (s : Demo)
        → Reach number env s
        → queue_depth s ≤ ends events
        → Reach number env (play events s)
          × (queue_depth (play events s) ≡ 0)
          × ((play events s).arrived ≡ s.arrived)
    unfolding queue_depth admit roll_back
    play-depth [] s r h = (r, omega arith, refl)
    play-depth (run_ends now which ∷ events) s r h =
        let (r₁, le, same) = end_one-depth now which (ends events) s s.running refl r h in
        let (r₂, done, also) = play-depth events (end_one now which s.running s) r₁ le in
        (r₂, done, also ∙ same)
    play-depth (timer_fires now ∷ events) s r h =
        let (le, same) = fire_timer-keeps now s in
        let (r₂, done, also) =
          play-depth events (fire_timer number env now s) (next r (timer_fired now))
            (omega (arith, le, h)) in
        (r₂, done, also ∙ same)
    play-depth (gate_passed ∷ events) s r h = play-depth events (admit s) (next r admitted) h
    play-depth (given_up id ∷ events) s r h =
        play-depth events (roll_back id s) (next r (rolled_back id)) h

    -- If the setting of the number of slots is a number, then from every reachable state, while no further request
    -- commits: whichever runs in flight end, with whatever timers, passed gates and rollbacks between, once as many
    -- have ended as were waiting or in flight, all that were queued have been started, in order, and none is left.
    pub play-started :
        (events : List Event) (s : Demo)
        → Reach number env s
        → queue_depth s ≤ ends events
        → (started_ids (play events s) ≡ s.arrived)
          × ((play events s).queue ≡ [])
          × ((play events s).running ≡ [])
    play-started events s r h =
        let (reached, depth, same) = play-depth events s r h in
        let (no_queue, no_run) = depth-zero _ depth in
        (
          sym (append-nil _)
              ∙ ap (λ q. started_ids (play events s) ++ q) (sym no_queue)
              ∙ (Reach-Ordered number env _ reached).fifo
              ∙ same,
          no_queue,
          no_run,
        )
