-- ===== src/StateVerify/Grants.antt =====
-- Grants and revocations.
use nightpass.Base.{
  ℕ, ◌<◌, ◌≡◌, ◌↔◌, refl, arith, false, ◌||◌, Option, none, some, Text, norm, is_empty,
  text_or_empty, Option-cases, Bool-cases, inl, inr,
}
use nightpass.ChainVerify.{confirmed}
use nightpass.StateVerify.{
  Reader, GrantQuery, GrantOp, grant, revoke, grant_query, grants_after, grants_read,
  verify_grant_state,
}

module _ (env : Reader) where
  -- What the number of active rows has to be.
  abbrev pub Counts : GrantOp → ℕ → Type 0
  Counts grant n = 0 < n
  Counts revoke n = n ≡ 0

  grants_after-confirmed :
      (op : GrantOp) (q : GrantQuery) (r : Option (GrantQuery → Option ℕ))
      → (grants_after op q r ≡ confirmed) ↔ (
          (rows : GrantQuery → Option ℕ) × (n : ℕ) × (r ≡ some rows)
          × (rows q ≡ some n)
          × Counts op n)
  grants_after-confirmed op q none = ((λ h. cc), λ (rows, n, e, _, _). cc)
  grants_after-confirmed op q (some rows) = elim (Option-cases (rows q)) [
    | inl e ↦ (
      (λ h. cc (rw e at h)),
      λ (t, n, f, g, _). let same : rows ≡ t = cc in cc (rw (← same) at g, e),
    )
    | inr (n, e) ↦ (
      (λ h. (rows, n, refl, e, counts_of op n (rw e at h))),
      (λ (t, m, f, g, c).
          let same : rows ≡ t = cc in
          let number : n ≡ m = cc (rw (← same) at g, e) in rw e (confirmed_of op n (rw number c))),
    )
  ]
    where
      counts_of : (op : GrantOp) (n : ℕ) → grants_read op (some n) ≡ confirmed → Counts op n
      counts_of grant n h = ground arith
      counts_of revoke n h = ground arith

      confirmed_of : (op : GrantOp) (n : ℕ) → Counts op n → grants_read op (some n) ≡ confirmed
      confirmed_of grant n h = ground arith
      confirmed_of revoke n h = ground arith

  -- A grant is confirmed exactly if contract, payload and grantee are given, the reindex and the
  -- read succeed, and an active row matches; a revocation exactly if none does.
  pub verify_grant_state-confirmed_iff :
      (contract payload attester grantee : Option Text) (op : GrantOp)
      → (verify_grant_state env contract payload attester grantee op ≡ confirmed) ↔ (
          (is_empty (norm contract) ≡ false)
          × (is_empty (norm payload) ≡ false)
          × (is_empty (text_or_empty grantee) ≡ false)
          × ((rows : GrantQuery → Option ℕ) × (n : ℕ) × (env.reindex (norm contract) ≡ some rows)
              × (rows (
                    grant_query
                      (norm contract)
                      (norm payload)
                      (text_or_empty grantee)
                      (norm attester))
                  ≡ some n)
              × Counts op n))
  unfolding verify_grant_state
  verify_grant_state-confirmed_iff contract payload attester grantee op =
      let skip =
        is_empty (norm contract) || is_empty (norm payload) || is_empty (text_or_empty grantee) in
      let q = grant_query (norm contract) (norm payload) (text_or_empty grantee) (norm attester) in
      let (to, from) = grants_after-confirmed op q (env.reindex (norm contract)) in
      elim (Bool-cases skip) [
        | inl e ↦ ((λ h. cc (rw e at h)), λ (g1, g2, g3, _). absurd (ground arith))
        | inr e ↦ (
          (λ h. (ground arith, ground arith, ground arith, to (rw e at h))),
          (λ (g1, g2, g3, r). rw e (from r)),
        )
      ]
