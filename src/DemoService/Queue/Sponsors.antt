-- ===== src/DemoService/Queue/Sponsors.antt =====
-- The leases of sponsors: no two runs share one, and where the pool has no wallet twice each run has
-- one.
use nightpass.Base.{
  find-Among, ℕ, suc, ◌+◌, ◌≤◌, ◌≡◌, inl, inr, refl, sym, ◌∙◌, arith, Bool, false, not, List, [],
  ◌∷◌, ◌++◌, Option, none, some, is_some, Text, text_eq, text_eq_iff, length, length-append,
  Bool-cases, Option-cases, if◌then◌else◌, ◌==◌,
}
use nightpass.Base.JsNumber.{JsNumber, int}
use nightpass.Base.Maps.{lookup, lookup-insert, lookup-remove}
use nightpass.Base.Splits.{Env}
use nightpass.ProducerWallets.{fee_sponsor_wallet_ids}
use nightpass.DemoService.{concurrency, remote_transport}
use nightpass.DemoService.Leases.{
  SponsorLeases, free_sponsor, lease_sponsor, acquire_sponsor, acquire_vault, get, delete,
}
use nightpass.DemoService.Queue.{
  Context, Launch, Demo, drop_run, find_run, start_run, launch, admit, roll_back, drop_sponsor,
  Reach,
}
use nightpass.DemoService.Queue.Rounds.{Inductive, Reach-keeps, slot_free-lt}

abbrev pub is_for : Text → Option Text → Bool
is_for w none = false
is_for w (some v) = text_eq v w

abbrev pub one_if : Bool → ℕ
one_if b = if b then 1 else 0

-- How many of the runs hold the sponsor.
abbrev pub holders : Text → List Launch → ℕ
holders w [] = 0
holders w (l ∷ ls) = one_if (is_for w l.sponsor) + holders w ls

-- A sponsor is leased exactly if a run in flight holds it, and then one does.
abbrev pub Leased : Demo → Type 0
Leased s = (w : Text) → holders w s.running ≡ one_if (is_some (lookup w s.sponsor_leases))

holders-append :
    (w : Text) (ks ls : List Launch) → holders w (ks ++ ls) ≡ holders w ks + holders w ls
holders-append w [] ls = omega arith
holders-append w (k ∷ ks) ls = omega (arith, holders-append w ks ls)

free_sponsor-free :
    (wallets : List Text) (leases : SponsorLeases) (w : Text)
    → free_sponsor wallets leases ≡ some w
    → is_some (lookup w leases) ≡ false
unfolding free_sponsor
free_sponsor-free wallets leases w h =
    let free = (find-Among (λ v. not (is_some (lookup v leases))) wallets w h).1 in ground arith

-- A lease of the wallet is there afterwards exactly if it was before or is the one that is acquired,
-- and not both.
lease_sponsor-lookup :
    (id : ℕ) (leases : SponsorLeases) (w : Text) (o : Option Text)
    → ((v : Text) → o ≡ some v → is_some (lookup v leases) ≡ false)
    → one_if (is_some (lookup w (lease_sponsor id o leases).1))
      ≡ one_if (is_some (lookup w leases)) + one_if (is_for w (lease_sponsor id o leases).0)
lease_sponsor-lookup id leases w none free = omega arith
lease_sponsor-lookup id leases w (some v) free =
    rw (lookup-insert v w id leases) (elim (Bool-cases (text_eq v w)) [
      | inr e ↦ rw e (omega arith)
      | inl e ↦
          let same : v ≡ w = (text_eq_iff v w).0 e in
          let free_now = free v refl in
          let none_yet = rw same at free_now in rw (e, none_yet) (omega arith)
    ])

acquire_sponsor-lookup :
    (env : Env) (id : ℕ) (leases : SponsorLeases) (w : Text)
    → one_if (is_some (lookup w (acquire_sponsor env id leases).1))
      ≡ one_if (is_some (lookup w leases)) + one_if (is_for w (acquire_sponsor env id leases).0)
unfolding acquire_sponsor
acquire_sponsor-lookup env id leases w = elim (Bool-cases (remote_transport env)) [
  | inl e ↦ rw e (omega arith)
  | inr e ↦ rw e (
      lease_sponsor-lookup id leases w (free_sponsor (fee_sponsor_wallet_ids env) leases)
        (free_sponsor-free (fee_sponsor_wallet_ids env) leases))
]

holders-drop_run :
    (w : Text) (id : ℕ) (ls : List Launch) (l : Launch)
    → find_run id ls ≡ some l
    → holders w ls ≡ one_if (is_for w l.sponsor) + holders w (drop_run id ls)
unfolding find_run drop_run
holders-drop_run w id [] l h = absurd (cc)
holders-drop_run w id (k ∷ ks) l h = elim (Bool-cases (k.run_id == id)) [
  | inl e ↦ let same : k ≡ l = cc (rw e at h) in rw (e, same) refl
  | inr e ↦ rw e (omega (arith, holders-drop_run w id ks l (rw e at h)))
]

length-drop_run : (id : ℕ) (ls : List Launch) → length (drop_run id ls) ≤ length ls
unfolding drop_run
length-drop_run id [] = omega arith
length-drop_run id (l ∷ ls) = ground (arith, length-drop_run id ls)

drop_sponsor-lookup :
    (leases : SponsorLeases) (w : Text) (o : Option Text) (n : ℕ)
    → one_if (is_some (lookup w leases)) ≡ one_if (is_for w o) + n
    → n ≡ one_if (is_some (lookup w (drop_sponsor o leases)))
drop_sponsor-lookup leases w none n h = omega arith
drop_sponsor-lookup leases w (some v) n h =
    rw (lookup-remove v w leases) (elim (Bool-cases (text_eq v w)) [
      | inl e ↦ let both = rw e at h in rw e (ground arith)
      | inr e ↦ rw e (ground arith)
    ])

module _ (number : Text → JsNumber) (env : Env) where
  pub start_run-Leased :
      (id : ℕ) (ctx : Context) (s : Demo) → Leased s → Leased (start_run number env id ctx s)
  unfolding start_run
  start_run-Leased id ctx s h w =
      rw
        (
          holders-append w s.running (
              record {
                run_id = id;
                context = ctx;
                sponsor = (acquire_sponsor env id s.sponsor_leases).0;
                vault = (acquire_vault env id s.vault_leases).0;
              }
              ∷ []),
          acquire_sponsor-lookup env id s.sponsor_leases w,
        )
        (omega (arith, h w))

  launch-Leased : (now id : ℕ) (s : Demo) → Leased s → Leased (launch number env now id s)
  unfolding launch
  launch-Leased now id s h = elim (Option-cases (get id s.pending)) [
    | inl e ↦ rw (e, launch) h
    | inr (ctx, e) ↦
        rw (e, launch)
          (start_run-Leased id ctx (record s { last_start_at = now; pending = delete id s.pending })
            h)
  ]

  pub Leased-Inductive : Inductive number env Leased
  unfolding admit roll_back lookup
  Leased-Inductive = record {
    begins = λ w. refl;
    rests = λ t s h. h;
    launches = λ now id rest s free h. launch-Leased now id s h;
    admits = λ s h. h;
    queues = λ id ctx s e h. h;
    rolls_back = λ id s h. h;
    ends = λ id l s e h w.
        drop_sponsor-lookup s.sponsor_leases w l.sponsor (holders w (drop_run id s.running))
          (sym (h w) ∙ holders-drop_run w id s.running l e);
  }

  -- Whatever the order of requests, ends of runs and timers, a sponsor is leased exactly if a run in
  -- flight holds it, and no two runs hold the same one.
  pub Reach-Leased : (s : Demo) → Reach number env s → Leased s
  Reach-Leased = Reach-keeps number env Leased-Inductive

  length-launch :
      (now id : ℕ) (s : Demo) → length (launch number env now id s).running ≤ suc (length s.running)
  unfolding launch start_run
  length-launch now id s = elim (Option-cases (get id s.pending)) [
    | inl e ↦ rw (e, launch) (omega arith)
    | inr (ctx, e) ↦ rw (e, launch) (rw (length-append s.running (_ ∷ [])) (omega arith))
  ]

  -- Any sequence of events leaves no more runs in flight than the setting allows.
  pub Reach-capacity :
      (k : ℕ)
      → concurrency number env ≡ int k
      → (s : Demo) → Reach number env s
      → length s.running ≤ k
  unfolding admit roll_back
  Reach-capacity k e = Reach-keeps number env (record {
    begins = omega arith;
    rests = λ t s h. h;
    launches = λ now id rest s free h.
        omega (arith, length-launch now id s, slot_free-lt number env k s e free, h);
    admits = λ s h. h;
    queues = λ id ctx s e h. h;
    rolls_back = λ id s h. h;
    ends = λ id l s e h. omega (arith, length-drop_run id s.running, h);
  })
