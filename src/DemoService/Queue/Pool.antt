-- ===== src/DemoService/Queue/Pool.antt =====
-- Where the pool of sponsors has no wallet twice, each run has a sponsor of its own.
use nightpass.Base.{
  find-none, ℕ, ◌+◌, ◌≤◌, ◌<◌, ◌≡◌, ◌≢◌, inl, inr, refl, ap, ◌∙◌, arith, true, false, not, List, [],
  ◌∷◌, Option, none, some, is_some, Text, text_eq, text_eq_iff, length, All, All-append, Distinct,
  Bool-cases, Option-cases,
}
use nightpass.Base.JsNumber.{JsNumber}
use nightpass.Base.Maps.{lookup}
use nightpass.Base.Splits.{Env}
use nightpass.ProducerWallets.{fee_sponsor_wallet_ids}
use nightpass.DemoService.{remote_transport}
use nightpass.DemoService.Leases.{free_sponsor, acquire_sponsor, get, delete}
use nightpass.DemoService.Queue.{
  Launch, Demo, slot_free, start_run, launch, admit, roll_back, Reach,
}
use nightpass.DemoService.Queue.Rounds.{Reach-keeps, slot_free-sponsors}
use nightpass.DemoService.Queue.Sponsors.{
  is_for, one_if, holders, Leased, Leased-Inductive, start_run-Leased,
}

-- How many of the pool's sponsors the runs hold, and a single option.
abbrev total : List Text → List Launch → ℕ
total [] ls = 0
total (w ∷ pool) ls = holders w ls + total pool ls

abbrev hits : List Text → Option Text → ℕ
hits [] o = 0
hits (w ∷ pool) o = one_if (is_for w o) + hits pool o

total-cons :
    (pool : List Text) (l : Launch) (ls : List Launch)
    → total pool (l ∷ ls) ≡ hits pool l.sponsor + total pool ls
total-cons [] l ls = omega arith
total-cons (w ∷ pool) l ls = omega (arith, total-cons pool l ls)

total-nil : (pool : List Text) → total pool [] ≡ 0
total-nil [] = refl
total-nil (w ∷ pool) = omega (arith, total-nil pool)

hits-none : (pool : List Text) → hits pool none ≡ 0
hits-none [] = refl
hits-none (w ∷ pool) = omega (arith, hits-none pool)

hits-apart : (v : Text) (pool : List Text) → All (λ w. v ≢ w) pool → hits pool (some v) ≡ 0
hits-apart v [] h = refl
hits-apart v (w ∷ pool) (differs, h) = elim (Bool-cases (text_eq v w)) [
  | inl e ↦ absurd (differs ((text_eq_iff v w).0 e))
  | inr e ↦ rw e (omega (arith, hits-apart v pool h))
]

hits-some : (v : Text) (pool : List Text) → Distinct (λ x. x) pool → hits pool (some v) ≤ 1
hits-some v [] d = omega arith
hits-some v (w ∷ pool) (apart, d) = elim (Bool-cases (text_eq v w)) [
  | inr e ↦ rw e (omega (arith, hits-some v pool d))
  | inl e ↦
      let same : v ≡ w = (text_eq_iff v w).0 e in
      rw e (let none_left = hits-apart w pool apart in rw (same, none_left) (omega arith))
]

hits-le : (o : Option Text) (pool : List Text) → Distinct (λ x. x) pool → hits pool o ≤ 1
hits-le none pool d = omega (arith, hits-none pool)
hits-le (some v) pool d = hits-some v pool d

total-le :
    (pool : List Text) (ls : List Launch) → Distinct (λ x. x) pool → total pool ls ≤ length ls
total-le pool [] d = omega (arith, total-nil pool)
total-le pool (l ∷ ls) d =
    omega (arith, total-cons pool l ls, hits-le l.sponsor pool d, total-le pool ls d)

total-all :
    (pool : List Text) (ls : List Launch)
    → All (λ w. holders w ls ≡ 1) pool
    → total pool ls ≡ length pool
total-all [] ls h = refl
total-all (w ∷ pool) ls (here, h) = omega (arith, here, total-all pool ls h)

-- If no sponsor of the pool is free, each is held by one run.
taken :
    (s : Demo) (pool : List Text)
    → Leased s
    → All (λ w. not (is_some (lookup w s.sponsor_leases)) ≡ false) pool
    → All (λ w. holders w s.running ≡ 1) pool
taken s [] h g = tt
taken s (w ∷ pool) h (here, g) =
    let leased : is_some (lookup w s.sponsor_leases) ≡ true = ground arith in
    (h w ∙ ap one_if leased, taken s pool h g)

module _ (number : Text → JsNumber) (env : Env) (local : remote_transport env ≡ false)
    (distinct : Distinct (λ x. x) (fee_sponsor_wallet_ids env))
    (some_sponsor : 0 < length (fee_sponsor_wallet_ids env)) where
  has_sponsor :
      (id : ℕ) (s : Demo)
      → slot_free number env s ≡ true
      → Leased s
      → is_some (acquire_sponsor env id s.sponsor_leases).0 ≡ true
  unfolding acquire_sponsor free_sponsor
  has_sponsor id s free h =
      elim (Option-cases (free_sponsor (fee_sponsor_wallet_ids env) s.sponsor_leases)) [
        | inr (w, e) ↦ rw (local, e) refl
        | inl e ↦
            let pool = fee_sponsor_wallet_ids env in
            let full = taken s pool h (find-none _ pool e) in
            absurd (
              ground (
                arith,
                total-all pool s.running full,
                total-le pool s.running distinct,
                slot_free-sponsors number env s local free,
                some_sponsor,
              ))
      ]

  abbrev Sponsored : Demo → Type 0
  Sponsored s = Leased s × All (λ l. is_some l.sponsor ≡ true) s.started

  launch-Sponsored :
      (now id : ℕ) (rest : List ℕ) (s : Demo)
      → slot_free number env s ≡ true
      → Sponsored s
      → Sponsored (record (launch number env now id s) { queue = rest })
  unfolding launch start_run
  launch-Sponsored now id rest s free (leased, given) = elim (Option-cases (get id s.pending)) [
    | inl e ↦ rw (e, launch) (leased, given)
    | inr (ctx, e) ↦
        let t = record s { last_start_at = now; pending = delete id s.pending } in
        rw (e, launch)
          (
            start_run-Leased number env id ctx t leased,
            All-append _ s.started (_ ∷ []) given (has_sponsor id s free leased, tt),
          )
  ]

  -- Without the remote lane, where the pool of sponsors is not empty and has no wallet twice, each
  -- run is started with a sponsor.
  pub Reach-Sponsored :
      (s : Demo) → Reach number env s → All (λ l. is_some l.sponsor ≡ true) s.started
  unfolding admit roll_back
  Reach-Sponsored s r =
      (Reach-keeps number env {P = Sponsored}
        (record {
          begins = ((Leased-Inductive number env).begins, tt);
          rests = λ t s h. h;
          launches = λ now id rest s free h. launch-Sponsored now id rest s free h;
          admits = λ s h. h;
          queues = λ id ctx s e h. h;
          rolls_back = λ id s h. h;
          ends = λ id l s e h. ((Leased-Inductive number env).ends id l s e h.0, h.1);
        })
        s r).1
