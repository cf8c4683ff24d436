-- ===== src/DemoService/Execute/Outcome.antt =====
-- When a run is done, and what it leaves behind.
use nightpass.Base.{
  ◌≡◌, refl, arith, Bool, true, false, not, ◌&&◌, ◌||◌, List, any, Option, none, some, Text,
  is_some, Result, ok, err, is_ok,
}
use nightpass.Base.Acts.{is_ok-bind, bind-state}
use nightpass.Base.JsNumber.{JsNumber}
use nightpass.Base.Splits.{Env}
use nightpass.DemoClaims.Resolved.{ResolvedClaim}
use nightpass.DemoService.{remote_transport}
use nightpass.DemoService.Caps.{RunState, wallet, anchoring, proving, aging, publishing, done}
use nightpass.DemoService.Execute.{proof_succeeded, is_anchored}
use nightpass.DemoService.Execute.Calls.{
  Answers, Progress, write_state, to_state, warm_sponsor, open_session, skip_sync, sync_wallet,
  register_ownership, anchor_passport, prove_claims, second_life, publish, run_body, execute_run,
}

abbrev pub holds : {A : Type 0} → (A → Bool) → Result Text A → Bool
holds p (ok a) = p a
holds p (err e) = false

write_state-is_ok :
    (state : RunState) (o : Option Text) (s : Progress)
    → is_ok (write_state state o s).0 ≡ not (is_some o)
write_state-is_ok state none s = refl
write_state-is_ok state (some e) s = refl

module _ (env : Env) (shown : JsNumber → Text) (a : Answers) where
  -- The row is written, and the parts of a run on which its success depends.
  abbrev pub stores : RunState → Bool
  stores state = not (is_some (a.store state))

  abbrev pub sponsor_ok : Option Text → Bool
  sponsor_ok none = true
  sponsor_ok (some sponsor) = holds (λ state. not state.0) a.warm

  abbrev pub session_ok : Bool
  session_ok = is_ok a.seed && (remote_transport env || (is_ok a.viewing_key && is_ok a.connect))

  abbrev pub sync_ok : Bool
  sync_ok =
      remote_transport env
      || holds (λ job. not (job && not (skip_sync env shown a)) || is_ok a.synced) a.signing

  abbrev pub anchor_ok : Bool
  anchor_ok = stores anchoring && (holds (λ mode. mode) a.created && holds is_anchored a.anchor)

  abbrev pub prove_ok : Bool
  prove_ok =
      stores proving && (holds (λ mode. mode) a.proven && holds (any proof_succeeded) a.proofs)

  warm_sponsor-is_ok :
      (sponsor : Option Text) (s : Progress)
      → is_ok (warm_sponsor env shown a sponsor s).0 ≡ sponsor_ok sponsor
  unfolding warm_sponsor
  warm_sponsor-is_ok none s = refl
  warm_sponsor-is_ok (some sponsor) s = ground arith

  open_session-is_ok : (s : Progress) → is_ok (open_session env shown a s).0 ≡ session_ok
  unfolding open_session
  open_session-is_ok s = ground arith

  sync_wallet-is_ok : (s : Progress) → is_ok (sync_wallet env shown a s).0 ≡ sync_ok
  unfolding sync_wallet
  sync_wallet-is_ok s = ground arith

  register_ownership-is_ok : (s : Progress) → is_ok (register_ownership env shown a s).0 ≡ true
  unfolding register_ownership
  register_ownership-is_ok s = ground arith

  anchor_passport-is_ok : (s : Progress) → is_ok (anchor_passport env shown a s).0 ≡ anchor_ok
  unfolding anchor_passport
  anchor_passport-is_ok s = ground arith

  prove_claims-is_ok :
      (claims : List ResolvedClaim) (s : Progress)
      → is_ok (prove_claims env shown a claims s).0 ≡ prove_ok
  unfolding prove_claims
  prove_claims-is_ok claims s = ground arith

  second_life-is_ok :
      (wanted : Bool) (s : Progress)
      → is_ok (second_life env shown a wanted s).0 ≡ (not wanted || stores aging)
  unfolding second_life
  second_life-is_ok wanted s = ground arith

  publish-is_ok : (s : Progress) → is_ok (publish env shown a s).0 ≡ stores publishing
  unfolding publish
  publish-is_ok s = ground arith

  abbrev pub body_ok : Bool → Bool
  body_ok wanted =
      sync_ok
      && (anchor_ok
          && (prove_ok && ((not wanted || stores aging) && (stores publishing && stores done))))

  run_body-is_ok :
      (wanted : Bool) (claims : List ResolvedClaim) (s : Progress)
      → is_ok (run_body env shown a wanted claims s).0 ≡ body_ok wanted
  unfolding run_body
  run_body-is_ok wanted claims s =
      is_ok-bind (sync_wallet env shown a) _ s _ _ (sync_wallet-is_ok s) (λ x t₁.
        is_ok-bind (register_ownership env shown a) _ _ true _ (register_ownership-is_ok _) (λ x t₂.
          is_ok-bind (anchor_passport env shown a) _ t₂ _ _ (anchor_passport-is_ok t₂) (λ x t₃.
            is_ok-bind (prove_claims env shown a claims) _ t₃ _ _ (prove_claims-is_ok claims t₃)
              (λ x t₄.
                is_ok-bind (second_life env shown a wanted) _ t₄ _ _ (second_life-is_ok wanted t₄)
                  (λ x t₅.
                    is_ok-bind (publish env shown a) _ t₅ _ _ (publish-is_ok t₅)
                      (λ x t₆. write_state-is_ok done (a.store done) t₆))))))

  -- A run returns exactly if the sponsor is warm, the session opens and syncs, the passport is created
  -- and anchored, a claim is proven, and the states are written: the registration of the ownership, the
  -- second life and the publication never fail it, nor do the other claims.
  pub execute_run-is_ok :
      (sponsor : Option Text) (wanted : Bool) (claims : List ResolvedClaim) (s : Progress)
      → is_ok (execute_run env shown a sponsor wanted claims s).0
        ≡ (sponsor_ok sponsor && (stores wallet && (session_ok && body_ok wanted)))
  unfolding execute_run
  execute_run-is_ok sponsor wanted claims s =
      is_ok-bind (warm_sponsor env shown a sponsor) _ s _ _ (warm_sponsor-is_ok sponsor s) (λ x t₁.
        is_ok-bind (to_state env shown a wallet) _ t₁ _ _
          (write_state-is_ok wallet (a.store wallet) t₁)
          (λ x t₂.
            is_ok-bind (open_session env shown a) _ _ _ _ (open_session-is_ok _)
              (λ x t₃. run_body-is_ok wanted claims t₃)))

  -- No seed is registered and no session is open.
  abbrev Released : Progress → Type 0
  Released s = (s.signer ≡ false) × (s.session ≡ none)

  warm_sponsor-Released :
      (sponsor : Option Text) (s : Progress)
      → Released s
      → Released (warm_sponsor env shown a sponsor s).1
  unfolding warm_sponsor
  warm_sponsor-Released none s h = h
  warm_sponsor-Released (some sponsor) s h = ground arith

  write_state-Released :
      (state : RunState) (o : Option Text) (s : Progress)
      → Released s
      → Released (write_state state o s).1
  write_state-Released state none s h = h
  write_state-Released state (some e) s h = h

  open_session-Released :
      (s : Progress)
      → Released s
      → is_ok (open_session env shown a s).0 ≡ false
      → Released (open_session env shown a s).1
  unfolding open_session
  open_session-Released s h threw = ground arith

  -- However a run ends, it leaves no seed registered and no session open.
  pub execute_run-Released :
      (sponsor : Option Text) (wanted : Bool) (claims : List ResolvedClaim) (s : Progress)
      → (s.signer ≡ false) × (s.session ≡ none)
      → ((execute_run env shown a sponsor wanted claims s).1.signer ≡ false)
        × ((execute_run env shown a sponsor wanted claims s).1.session ≡ none)
  unfolding execute_run
  execute_run-Released sponsor wanted claims s h =
      let warmed = warm_sponsor-Released sponsor s h in
      bind-state Released (warm_sponsor env shown a sponsor) _ s (λ e. warmed)
        (λ x e.
          let t = (warm_sponsor env shown a sponsor s).1 in
          let written = write_state-Released wallet (a.store wallet) t warmed in
          bind-state Released (to_state env shown a wallet) _ t (λ e. written)
            (λ x e.
              bind-state Released (open_session env shown a) _ _ (open_session-Released _ written)
                (λ x e. (refl, refl))))
