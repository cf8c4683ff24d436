-- ===== src/DemoClaims/Valid.antt =====
-- What a claim list that passes validation holds.
use nightpass.Base.{
  ℕ, suc, ◌+◌, ◌≤◌, ◌≡◌, ◌≢◌, refl, ◌∙◌, arith, Bool, true, false, ◌||◌, List, [], ◌∷◌, ◌++◌, map,
  append-nil, Option, none, some, Text, text_eq, text_eq_refl, any, All, All-append, Distinct,
  Distinct-insert, length, length-append, ltb, Bool-cases, inl, inr,
}
use nightpass.Base.Splits.{trim}
use nightpass.DemoClaims.{
  DemoClaimField, DemoProfileSpec, DemoClaim, ClaimSet, RawEntry, ClaimError, claim_field_by_name,
  max_demo_claims, Checked, bad, good, check_entry, Progress, add_error, add_checked, take_entry,
  validate_loop, unknown_field, duplicate, primary_required, require_primary, finished, conclude,
  start, validate_claims,
}
use nightpass.DemoClaims.Fitting.{claim_field, Fits, check_entry-Fits}

module _ (sets : Text → Option ClaimSet) (profile : DemoProfileSpec) where
  -- The claim is one of the catalog, and fits its entry there.
  abbrev pub Good : DemoClaim → Type 0
  Good c =
      (spec : DemoClaimField) × (claim_field_by_name profile (claim_field c) ≡ some spec)
      × Fits sets spec c

  -- What holds after `n` entries.
  record Inv (n : ℕ) (p : Progress sets) : Type 0 where
    fit : All Good p.claims
    distinct : Distinct claim_field p.claims
    tracked : All (λ c. any (text_eq (claim_field c)) p.seen ≡ true) p.claims
    seen_only :
        p.errors ≡ []
        → (f : Text) → any (text_eq f) p.seen ≡ true
        → any (text_eq f) (map claim_field p.claims) ≡ true
    counted : p.errors ≡ [] → length p.claims ≡ n

  snoc-ne-nil : {A : Type 0} (xs : List A) (x : A) → xs ++ (x ∷ []) ≢ []
  snoc-ne-nil [] x = λ h. cc
  snoc-ne-nil (y ∷ ys) x = λ h. cc

  All-map {κ κ'} :
      {P : DemoClaim → Type κ} {Q : DemoClaim → Type κ'} (f : (c : DemoClaim) → P c → Q c)
      (cs : List DemoClaim)
      → All P cs
      → All Q cs
  All-map f [] h = tt
  All-map f (c ∷ cs) (here, h) = (f c here, All-map f cs h)

  add_error-Inv :
      (n : ℕ) (e : ClaimError) (p : Progress sets) → Inv n p → Inv (suc n) (add_error sets e p)
  add_error-Inv n e p inv = record {
    fit = inv.fit;
    distinct = inv.distinct;
    tracked = inv.tracked;
    seen_only = λ h. absurd (snoc-ne-nil p.errors e h);
    counted = λ h. absurd (snoc-ne-nil p.errors e h);
  }

  add_bad-Inv :
      (n : ℕ) (field : Text) (e : ClaimError) (p : Progress sets)
      → Inv n p
      → Inv (suc n) (add_checked sets field (bad e) p)
  add_bad-Inv n field e p inv = record {
    fit = inv.fit;
    distinct = inv.distinct;
    tracked = All-map (λ c h. ground arith) p.claims inv.tracked;
    seen_only = λ h. absurd (snoc-ne-nil p.errors e h);
    counted = λ h. absurd (snoc-ne-nil p.errors e h);
  }

  any-snoc :
      (q : Text → Bool) (cs : List DemoClaim) (c : DemoClaim)
      → any q (map claim_field (cs ++ (c ∷ []))) ≡ (any q (map claim_field cs) || q (claim_field c))
  any-snoc q [] c = ground arith
  any-snoc q (d ∷ cs) c = ground (arith, any-snoc q cs c)

  add_good-Inv :
      (n : ℕ) (c : DemoClaim) (p : Progress sets)
      → Good c
      → any (text_eq (claim_field c)) p.seen ≡ false
      → Inv n p
      → Inv (suc n) (add_checked sets (claim_field c) (good c) p)
  add_good-Inv n c p fits fresh inv = record {
    fit = All-append Good p.claims (c ∷ []) inv.fit (fits, tt);
    distinct =
        Distinct-insert claim_field c p.claims []
          (rw (append-nil p.claims) (All-map differs p.claims inv.tracked))
          (rw (append-nil p.claims) inv.distinct);
    tracked =
        All-append _ p.claims (c ∷ []) (All-map (λ d h. ground arith) p.claims inv.tracked)
          (ground (arith, text_eq_refl (claim_field c)), tt);
    seen_only = λ h f member. any-snoc (text_eq f) p.claims c ∙ ground (arith, inv.seen_only h f);
    counted = λ h. omega (arith, inv.counted h, length-append p.claims (c ∷ []));
  }
    where
      differs :
          (d : DemoClaim)
          → any (text_eq (claim_field d)) p.seen ≡ true
          → claim_field c ≢ claim_field d
      differs d h same =
          let off : any (text_eq (claim_field d)) p.seen ≡ false = rw same at fresh in absurd (cc)

  add_checked-Inv :
      (n : ℕ) (spec : DemoClaimField) (field : Text) (e : RawEntry) (p : Progress sets)
      → claim_field_by_name profile field ≡ some spec
      → any (text_eq field) p.seen ≡ false
      → Inv n p
      → Inv (suc n) (add_checked sets field (check_entry sets spec field e) p)
  add_checked-Inv n spec field e p known fresh inv = by_outcome (check_entry sets spec field e) refl
    where
      by_outcome :
          (r : Checked)
          → check_entry sets spec field e ≡ r
          → Inv (suc n) (add_checked sets field r p)
      by_outcome (bad x) h = add_bad-Inv n field x p inv
      by_outcome (good c) h =
          let (same, fits) = check_entry-Fits sets spec field e c h in
          rw (← same) (add_good-Inv n c p (spec, rw same known, fits) (rw same fresh) inv)

  take_entry-Inv :
      (n : ℕ) (field : Text) (o : Option DemoClaimField) (e : RawEntry) (p : Progress sets)
      → claim_field_by_name profile field ≡ o
      → Inv n p
      → Inv (suc n) (take_entry sets field o e p)
  take_entry-Inv n field none e p known inv = add_error-Inv n (unknown_field field) p inv
  take_entry-Inv n field (some spec) e p known inv =
      elim (Bool-cases (any (text_eq field) p.seen)) [
        | inl again ↦ rw again (add_error-Inv n (duplicate field) p inv)
        | inr fresh ↦ rw fresh (add_checked-Inv n spec field e p known fresh inv)
      ]

  validate_loop-Inv :
      (raw : List RawEntry) (n : ℕ) (p : Progress sets)
      → Inv n p
      → Inv (n + length raw) (validate_loop sets profile raw p)
  unfolding validate_loop
  validate_loop-Inv [] n p inv = let same : n + 0 ≡ n = omega arith in rw same inv
  validate_loop-Inv (e ∷ es) n p inv =
      let same : n + suc (length es) ≡ suc n + length es = omega arith in
      rw same (
        validate_loop-Inv es (suc n) _ (
          take_entry-Inv n (trim e.field) (claim_field_by_name profile (trim e.field)) e p refl
            inv))

  start-Inv : Inv 0 (start sets)
  start-Inv = record {
    fit = tt;
    distinct = tt;
    tracked = tt;
    seen_only = λ h f m. absurd (cc);
    counted = λ h. refl;
  }

  -- A claim list that may be proven.
  pub record IsRun (count : ℕ) (claims : List DemoClaim) : Type 0 where
    pub fit : All Good claims
    pub distinct : Distinct claim_field claims
    pub primary : any (text_eq profile.primary) (map claim_field claims) ≡ true
    pub one_each : length claims ≡ count
    pub few : length claims ≤ max_demo_claims profile

  finished-ok :
      (es : List ClaimError) (cs : List DemoClaim)
      → (finished sets es cs).ok ≡ true
      → (es ≡ []) × ((finished sets es cs).claims ≡ cs)
  finished-ok [] cs h = (refl, refl)
  finished-ok (e ∷ es) cs h = absurd (cc)

  conclude-IsRun :
      (n : ℕ) (p : Progress sets)
      → Inv n p
      → n ≤ max_demo_claims profile
      → (conclude sets (require_primary sets profile p)).ok ≡ true
      → IsRun n (conclude sets (require_primary sets profile p)).claims
  conclude-IsRun n p inv few passed = elim (Bool-cases (any (text_eq profile.primary) p.seen)) [
    | inr missing ↦
        let (no_errors, same) =
          finished-ok (p.errors ++ (primary_required profile.primary ∷ [])) p.claims
            (rw missing at passed) in
        absurd (snoc-ne-nil p.errors (primary_required profile.primary) no_errors)
    | inl there ↦
        let (no_errors, same) = finished-ok p.errors p.claims (rw there at passed) in
        rw there (
          rw same (record {
            fit = inv.fit;
            distinct = inv.distinct;
            primary = inv.seen_only no_errors profile.primary there;
            one_each = inv.counted no_errors;
            few = omega (arith, inv.counted no_errors);
          }))
  ]

  -- A list of entries that passes gives one claim for each entry, at most as many as the catalog has:
  -- each is of the catalog and fits its entry there, no two are for one field, and the primary claim
  -- is among them.
  pub validate_claims-IsRun :
      (raw : Option (List RawEntry))
      → (validate_claims sets profile raw).ok ≡ true
      → (entries : List RawEntry) × (raw ≡ some entries)
        × IsRun (length entries) (validate_claims sets profile raw).claims
  unfolding validate_claims
  validate_claims-IsRun none passed = absurd (cc)
  validate_claims-IsRun (some raw) passed =
      elim (Bool-cases (ltb (max_demo_claims profile) (length raw))) [
        | inl many ↦ absurd (cc (rw many at passed))
        | inr few ↦ (
          raw,
          refl,
          rw few (
              conclude-IsRun (length raw) (validate_loop sets profile raw (start sets))
                (let same : 0 + length raw ≡ length raw = omega arith in
                  rw same at (validate_loop-Inv raw 0 (start sets) start-Inv))
                (ground arith) (rw few at passed)),
        )
      ]

  finished-no_errors :
      (es : List ClaimError) (cs : List DemoClaim)
      → (finished sets es cs).errors ≡ []
      → (finished sets es cs).ok ≡ true
  finished-no_errors [] cs h = refl
  finished-no_errors (e ∷ es) cs h = absurd (cc)

  -- A check without an error has passed.
  pub validate_claims-no_errors :
      (raw : Option (List RawEntry))
      → (validate_claims sets profile raw).errors ≡ []
      → (validate_claims sets profile raw).ok ≡ true
  unfolding validate_claims
  validate_claims-no_errors none h = absurd (cc)
  validate_claims-no_errors (some raw) h =
      elim (Bool-cases (ltb (max_demo_claims profile) (length raw))) [
        | inl many ↦ absurd (cc (rw many at h))
        | inr few ↦ rw few (finished-no_errors _ _ (rw few at h))
      ]
