-- ===== src/DemoService/Queue/Order.antt =====
-- Runs are started in the order in which they were queued, each once.
use nightpass.Base.{
  ℕ, ◌+◌, ◌≤◌, ◌≡◌, inl, inr, refl, ap, ◌∙◌, arith, true, List, [], ◌∷◌, ◌++◌, map, append_assoc,
  some, Text, any, ltb, Bool-cases, if◌then◌else◌, ◌==◌,
}
use nightpass.Base.Counts.{count, drop_id, count-append, count-drop_id, count-drop_id_le}
use nightpass.Base.JsNumber.{JsNumber}
use nightpass.Base.Splits.{Env}
use nightpass.DemoService.Leases.{RunMap, get, set, delete}
use nightpass.DemoService.Queue.{Context, Demo, start_run, launch, admit, roll_back, Reach}
use nightpass.DemoService.Queue.Rounds.{Reach-keeps}

abbrev pub keys {ℓ} : {V : Type ℓ} → RunMap V → List ℕ
keys [] = []
keys (entry ∷ m) = entry.0 ∷ keys m

-- The runs that were started, in order.
abbrev pub started_ids : Demo → List ℕ
started_ids s = map (λ l. l.run_id) s.started

keys-set :
    {V : Type 0} (id : ℕ) (v : V) (m : RunMap V)
    → count id (keys m) ≡ 0
    → keys (set id v m) ≡ keys m ++ (id ∷ [])
unfolding set
keys-set id v [] h = refl
keys-set id v (entry ∷ m) h = elim (Bool-cases (entry.0 == id)) [
  | inl e ↦ absurd (ground arith)
  | inr e ↦ rw e (ap (◌∷◌ entry.0) (keys-set id v m (ground arith)))
]

-- The first entry is found and deleted.
get-first :
    {V : Type 0} (id : ℕ) (m : RunMap V) (rest : List ℕ)
    → keys m ≡ id ∷ rest
    → (v : V) × (get id m ≡ some v) × (keys (delete id m) ≡ rest)
unfolding get delete
get-first id [] rest h = absurd (cc)
get-first id ((k, v) ∷ m) rest h =
    let same : k ≡ id = cc in
    let tail : keys m ≡ rest = cc in
    let here : (k == id) ≡ true = ground arith in rw here (v, refl, tail)

-- Each queued run has its context, the runs that were started and those that wait are those that
-- were queued, in order, and no id is given twice.
pub record Ordered (s : Demo) : Type 0 where
  pub contexts : keys s.pending ≡ s.queue
  pub fifo : started_ids s ++ s.queue ≡ s.arrived
  pub once :
      (j : ℕ) → count j s.uncommitted + count j s.arrived ≤ (if ltb j s.next_run then 1 else 0)

map-snoc :
    {A B : Type 0} (f : A → B) (xs : List A) (x : A)
    → map f (xs ++ (x ∷ [])) ≡ map f xs ++ (f x ∷ [])
map-snoc f [] x = refl
map-snoc f (y ∷ ys) x = ap (◌∷◌ (f y)) (map-snoc f ys x)

queue-Ordered :
    (id : ℕ) (ctx : Context) (s : Demo)
    → any (λ j. j == id) s.uncommitted ≡ true
    → Ordered s
    → Ordered (record s {
      uncommitted = drop_id id s.uncommitted;
      queue = s.queue ++ (id ∷ []);
      arrived = s.arrived ++ (id ∷ []);
      pending = set id ctx s.pending;
    })
queue-Ordered id ctx s e h = record {
  contexts =
      keys-set id ctx s.pending (
        rw h.contexts (
          grind (
            arith,
            h.once id,
            count-drop_id id id s.uncommitted e,
            count-append id (started_ids s) s.queue,
            ap (count id) h.fifo,
            own,
          )))
      ∙ ap (λ q. q ++ (id ∷ [])) h.contexts;
  fifo = rw (← append_assoc (started_ids s) s.queue (id ∷ [])) (ap (λ q. q ++ (id ∷ [])) h.fifo);
  once = λ j.
      omega
        (arith, h.once j, count-drop_id j id s.uncommitted e, count-append j s.arrived (id ∷ []));
}
  where
    own : count id (id ∷ []) ≡ 1
    own = ground arith

module _ (number : Text → JsNumber) (env : Env) where
  launch-Ordered :
      (now id : ℕ) (rest : List ℕ) (s : Demo)
      → Ordered (record s { queue = id ∷ rest })
      → Ordered (record (launch number env now id s) { queue = rest })
  unfolding launch start_run
  launch-Ordered now id rest s h =
      let (ctx, e, left) = get-first id s.pending rest h.contexts in
      rw (e, launch)
        (record {
          contexts = left;
          fifo =
              rw (map-snoc (λ l. l.run_id) s.started _)
                (append_assoc (started_ids s) (id ∷ []) rest ∙ h.fifo);
          once = h.once;
        })

  -- Whatever the order of events, the runs that were started are the first ones that were queued, in
  -- the same order, the others wait, and no run is started twice.
  pub Reach-Ordered : (s : Demo) → Reach number env s → Ordered s
  unfolding admit roll_back
  Reach-Ordered = Reach-keeps number env {P = Ordered} (record {
    begins = record { contexts = refl; fifo = refl; once = λ j. ground arith };
    rests = λ t s h. record { contexts = h.contexts; fifo = h.fifo; once = h.once };
    launches = λ now id rest s free h. launch-Ordered now id rest s h;
    admits = λ s h. record {
      contexts = h.contexts;
      fifo = h.fifo;
      once = λ j. ground (arith, h.once j, count-append j s.uncommitted (s.next_run ∷ []));
    };
    queues = queue-Ordered;
    rolls_back = λ id s h. record {
      contexts = h.contexts;
      fifo = h.fifo;
      once = λ j. omega (arith, h.once j, count-drop_id_le j id s.uncommitted);
    };
    ends = λ id l s e h. record { contexts = h.contexts; fifo = h.fifo; once = h.once };
  })
