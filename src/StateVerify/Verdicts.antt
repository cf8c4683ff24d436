-- ===== src/StateVerify/Verdicts.antt =====
-- When a state read confirms an action.
use nightpass.Base.{
  ℕ, ◌≡◌, ◌≢◌, ◌↔◌, refl, arith, Bool, true, false, not, ◌||◌, Option, none, some, Text, norm,
  is_empty, is_lower_hex32, truthy, or_else, text_or_empty, if◌then◌else◌, Option-cases, inl, inr,
}
use nightpass.ChainLane.{ClaimPredicate}
use nightpass.ChainVerify.{ChainVerdict, confirmed, failed, unknown}
use nightpass.StateVerify.{
  RecordSelector, SelectorArgs, record_selector_args, attestation, cross_root, Answer, Reader,
  CrossRootKind, GrantOp, norm_given, verified_verdict, bound_param, second_attester, claim_query,
  askable, payload_hash_b_param, verify_attest_state, verify_cross_root_state,
  verify_predicate_state, verify_grant_state, grant, revoke, grants_after, grants_read,
  attest_verdict, grant_query, GrantQuery,
}

-- The read answers, and says that the effect is on the ledger.
abbrev pub Verified : Option Answer → Type 0
Verified r = (a : Answer) × (r ≡ some a) × (a.verified ≡ some true)

verified_verdict-confirmed : (r : Option Answer) → (verified_verdict r ≡ confirmed) ↔ Verified r
verified_verdict-confirmed none = (λ h. cc, λ (a, e, _). cc)
verified_verdict-confirmed (some res) =
    ((λ h. (res, refl, ground arith)), λ (a, e, v). ground arith)

-- Two guards in front of a read.
guarded_confirmed :
    (b c : Bool) (v : ChainVerdict)
    → ((if b then unknown else if c then unknown else v) ≡ confirmed)
      ↔ ((b ≡ false) × (c ≡ false) × (v ≡ confirmed))
guarded_confirmed b c v = ground arith

guarded-ne-failed :
    (b c : Bool) (v : ChainVerdict)
    → v ≢ failed
    → (if b then unknown else if c then unknown else v) ≢ failed
guarded-ne-failed b c v h = ground arith

verified_verdict-ne-failed : (r : Option Answer) → verified_verdict r ≢ failed
verified_verdict-ne-failed none = λ h. cc
verified_verdict-ne-failed (some res) = λ h. ground arith

module _ (env : Reader) where
  -- The same, by the record's arguments.
  pub attest_confirmed_iff :
      (o : RecordSelector) (root : Option Text)
      → (verify_attest_state env o root ≡ confirmed) ↔ (
          (sel : SelectorArgs) × (record_selector_args o ≡ some sel)
          × Verified (env.read (attestation sel (norm_given (truthy root)) none)))
  unfolding verify_attest_state
  attest_confirmed_iff o root = elim (Option-cases (record_selector_args o)) [
    | inl e ↦ ((λ h. cc (rw e at h)), λ (sel, f, _). cc (f, e))
    | inr (sel, e) ↦
        let (to, from) =
          verified_verdict-confirmed (env.read (attestation sel (norm_given (truthy root)) none)) in
        ((λ h. (sel, e, to (rw e at h))), λ (s, f, v). rw f ((verified_verdict-confirmed _).1 v))
  ]

  -- A cross-root claim is confirmed exactly if both payloads, the contract and the older record's
  -- attester are given, the plugin has the parameters, and the read answers verified.
  pub verify_cross_root_state-confirmed_iff :
      (contract a b x y : Option Text) (kind : CrossRootKind) (bound : ℕ)
      → (verify_cross_root_state env contract a b x y kind bound ≡ confirmed) ↔ (
          (is_empty (norm contract) ≡ false)
          × (is_empty (norm a) ≡ false)
          × (is_empty (norm b) ≡ false)
          × (is_lower_hex32 (norm x) ≡ true)
          × (env.available payload_hash_b_param ≡ true)
          × (env.available (bound_param env kind) ≡ true)
          × Verified (
              env.read (
                cross_root
                  (norm contract)
                  (norm x)
                  (norm a)
                  (norm b)
                  (second_attester env (norm x) (norm y))
                  kind
                  bound)))
  unfolding verify_cross_root_state
  verify_cross_root_state-confirmed_iff contract a b x y kind bound =
      let c = norm contract in
      let r = env.read (
        cross_root c (norm x) (norm a) (norm b) (second_attester env (norm x) (norm y)) kind
          bound) in
      let given =
        is_empty c || is_empty (norm a) || is_empty (norm b) || not (is_lower_hex32 (norm x)) in
      let lacking =
        not (env.available payload_hash_b_param) || not (env.available (bound_param env kind)) in
      let (to, from) = guarded_confirmed given lacking (verified_verdict r) in
      let (vto, vfrom) = verified_verdict-confirmed r in
      (
        (λ h.
            let (g, l, v) = to h in
            (
              ground arith,
              ground arith,
              ground arith,
              ground arith,
              ground arith,
              ground arith,
              vto v,
            )),
        (λ (h1, h2, h3, h4, h5, h6, v). from (ground arith, ground arith, vfrom v)),
      )

  -- A claim is confirmed exactly if the contract, the payload and the attester are given, a
  -- membership claim has a root and the plugin its parameter, and the read answers verified.
  pub verify_predicate_state-confirmed_iff :
      (contract payload attester field : Option Text) (p : ClaimPredicate) (threshold : Option ℕ)
      (root : Option Text)
      → (verify_predicate_state env contract payload attester field p threshold root ≡ confirmed)
        ↔ ((is_empty (norm contract) ≡ false)
            × (is_empty (norm payload) ≡ false)
            × (is_lower_hex32 (norm attester) ≡ true)
            × (askable env p (norm root) ≡ true)
            × Verified (
                env.read (
                  claim_query env
                    (norm contract)
                    (norm attester)
                    (norm payload)
                    (norm_given (truthy field))
                    p
                    (or_else threshold 0)
                    (norm root))))
  unfolding verify_predicate_state
  verify_predicate_state-confirmed_iff contract payload attester field p threshold root =
      let c = norm contract in
      let r = env.read (
        claim_query env c (norm attester) (norm payload) (norm_given (truthy field)) p
          (or_else threshold 0) (norm root)) in
      let given = is_empty c || is_empty (norm payload) || not (is_lower_hex32 (norm attester)) in
      let (to, from) =
        guarded_confirmed given (not (askable env p (norm root))) (verified_verdict r) in
      let (vto, vfrom) = verified_verdict-confirmed r in
      (
        (λ h.
            let (g, l, v) = to h in
            (ground arith, ground arith, ground arith, ground arith, vto v)),
        (λ (h1, h2, h3, h4, v). from (ground arith, ground arith, vfrom v)),
      )

  attest_verdict-ne-failed :
      (sel : Option SelectorArgs) (root : Option Text) → attest_verdict env sel root ≢ failed
  attest_verdict-ne-failed none root = λ h. cc
  attest_verdict-ne-failed (some sel) root = verified_verdict-ne-failed _

  grants_read-ne-failed : (op : GrantOp) (n : Option ℕ) → grants_read op n ≢ failed
  grants_read-ne-failed op none = λ h. cc
  grants_read-ne-failed grant (some n) = λ h. ground arith
  grants_read-ne-failed revoke (some n) = λ h. ground arith

  grants_after-ne-failed :
      (op : GrantOp) (q : GrantQuery) (rows : Option (GrantQuery → Option ℕ))
      → grants_after op q rows ≢ failed
  grants_after-ne-failed op q none = λ h. cc
  grants_after-ne-failed op q (some rows) = grants_read-ne-failed op (rows q)

  -- No state read says that an action failed, whatever the reads answer, throw or lack.
  pub verify_state-ne-failed :
      (o : RecordSelector) (root contract a b x y grantee field set_root : Option Text)
      (kind : CrossRootKind) (bound : ℕ) (p : ClaimPredicate) (threshold : Option ℕ) (op : GrantOp)
      → (verify_attest_state env o root ≢ failed)
        × (verify_cross_root_state env contract a b x y kind bound ≢ failed)
        × (verify_predicate_state env contract a x field p threshold set_root ≢ failed)
        × (verify_grant_state env contract a x grantee op ≢ failed)
  unfolding verify_attest_state verify_cross_root_state verify_predicate_state verify_grant_state
  verify_state-ne-failed o root contract a b x y grantee field set_root kind bound p threshold op =
      (
        attest_verdict-ne-failed (record_selector_args o) root,
        guarded-ne-failed
            (is_empty (norm contract)
              || is_empty (norm a)
              || is_empty (norm b)
              || not (is_lower_hex32 (norm x)))
            (not (env.available payload_hash_b_param) || not (env.available (bound_param env kind)))
            _
            (verified_verdict-ne-failed (
              env.read (
                cross_root (norm contract) (norm x) (norm a) (norm b)
                  (second_attester env (norm x) (norm y)) kind bound))),
        guarded-ne-failed
            (is_empty (norm contract) || is_empty (norm a) || not (is_lower_hex32 (norm x)))
            (not (askable env p (norm set_root))) _
            (verified_verdict-ne-failed (
              env.read (
                claim_query env (norm contract) (norm x) (norm a) (norm_given (truthy field)) p
                  (or_else threshold 0) (norm set_root)))),
        guarded-ne-failed
            (is_empty (norm contract) || is_empty (norm a) || is_empty (text_or_empty grantee))
            false _
            (grants_after-ne-failed op
              (grant_query (norm contract) (norm a) (text_or_empty grantee) (norm x))
              (env.reindex (norm contract))),
      )
