-- ===== src/PassportService/Grants/Latest.antt =====
-- The latest settled rows of the log, and the grants in force.
use nightpass.Base.{
  All-Among, ℕ, ◌≡◌, ◌≢◌, ◌⊎◌, inl, inr, refl, sym, ◌∙◌, arith, Bool, true, false, ◌&&◌,
  and-eq-true_iff, List, [], ◌∷◌, Option, some, Text, text_eq, text_eq_iff, Among, All, Distinct,
  Bool-cases, if◌then◌else◌,
}
use nightpass.Base.Maps.{TextMap, lookup, insert}
use nightpass.PassportService.Grants.{
  ChainGrant, LogRow, PassportHash, is_one_of, is_settled, log_key, latest_rows, rows_of,
  effective_grants_for,
}
use nightpass.PassportService.Grants.InForce.{
  OnChain, IsLatest, InLog, lookup-bump_chain, lookup-bump_log,
}

text_eq-false : (s t : Text) → s ≢ t → text_eq s t ≡ false
text_eq-false s t differs = elim (Bool-cases (text_eq s t)) [
  | inl e ↦ absurd (differs ((text_eq_iff s t).0 e))
  | inr e ↦ e
]

-- Entries whose keys differ and are those of their rows.
abbrev Keyed : TextMap LogRow → Type 0
Keyed m = Distinct (λ e. e.0) m × All (λ e. e.0 ≡ log_key e.1) m

apart-insert :
    (j k : Text) (r : LogRow) (m : TextMap LogRow)
    → j ≢ k
    → All (λ e. j ≢ e.0) m
    → All (λ e. j ≢ e.0) (insert k r m)
unfolding insert
apart-insert j k r [] differs h = (differs, tt)
apart-insert j k r (e ∷ m) differs (here, h) = elim (Bool-cases (text_eq e.0 k)) [
  | inl same ↦ rw same (here, h)
  | inr other ↦ rw other (here, apart-insert j k r m differs h)
]

insert-Keyed : (r : LogRow) (m : TextMap LogRow) → Keyed m → Keyed (insert (log_key r) r m)
unfolding insert
insert-Keyed r [] h = ((tt, tt), (refl, tt))
insert-Keyed r (e ∷ m) ((apart, d), (own, owned)) = elim (Bool-cases (text_eq e.0 (log_key r))) [
  | inl same ↦ rw same ((apart, d), ((text_eq_iff e.0 (log_key r)).0 same, owned))
  | inr other ↦
      let (d₁, owned₁) = insert-Keyed r m (d, owned) in
      let differs : e.0 ≢ log_key r = λ q. cc (sym other ∙ (text_eq_iff e.0 (log_key r)).1 q) in
      rw other ((apart-insert e.0 (log_key r) r m differs apart, d₁), (own, owned₁))
]

-- An entry after a row is stored is that row's, or one from before with another key.
Among-insert :
    (k : Text) (r : LogRow) (m : TextMap LogRow) (e : Text × LogRow)
    → Distinct (λ e. e.0) m
    → Among e (insert k r m)
    → (e.1 ≡ r) ⊎ (Among e m × (text_eq k e.0 ≡ false))
unfolding insert
Among-insert k r [] e d (inl same) = inl (rw same refl)
Among-insert k r [] e d (inr member) = absurd member
Among-insert k r (f ∷ m) e (apart, d) h = elim (Bool-cases (text_eq f.0 k)) [
  | inl same ↦ replaced ((text_eq_iff f.0 k).0 same) (rw same at h)
  | inr other ↦ kept other (λ member. Among-insert k r m e d member) (rw other at h)
]
  where
    replaced :
        f.0 ≡ k
        → (e ≡ (f.0, r)) ⊎ Among e m
        → (e.1 ≡ r) ⊎ (((e ≡ f) ⊎ Among e m) × (text_eq k e.0 ≡ false))
    replaced named (inl now) = inl (rw now refl)
    replaced named (inr member) =
        let differs = All-Among (λ g. f.0 ≢ g.0) m e apart member in
        inr (inr member, text_eq-false k e.0 (λ q. differs (named ∙ q)))

    kept :
        text_eq f.0 k ≡ false
        → (Among e (insert k r m) → (e.1 ≡ r) ⊎ (Among e m × (text_eq k e.0 ≡ false)))
        → (e ≡ f) ⊎ Among e (insert k r m)
        → (e.1 ≡ r) ⊎ (((e ≡ f) ⊎ Among e m) × (text_eq k e.0 ≡ false))
    kept other before (inl now) =
        let named : e.0 ≡ f.0 = rw now refl in
        inr (
          inl now,
          text_eq-false k e.0 (λ q. cc (sym other ∙ (text_eq_iff f.0 k).1 (sym (q ∙ named)))),
        )
    kept other before (inr member) = elim (before member) [
      | inl new ↦ inl new
      | inr (old, differs) ↦ inr (inr old, differs)
    ]

and_false : (a b : Bool) → b ≡ false → (a && b) ≡ false
and_false a b h = elim (Bool-cases a) [ inl e ↦ rw (e, h) refl | inr e ↦ rw e refl ]

and_false_left : (a b : Bool) → a ≡ false → (a && b) ≡ false
and_false_left a b h = rw h refl

-- No row of the log with the key counts.
abbrev Silent : List Text → List LogRow → Text → Type 0
Silent grantees log key =
    All
      (λ p.
        (text_eq (log_key p) key && (is_one_of grantees p.grantee && is_settled p.status)) ≡ false)
      log

-- The entries of the latest rows were there before, and no row of the log has counted since, or are the
-- latest of the log.
latest_rows-IsLatest :
    (grantees : List Text) (log : List LogRow) (m : TextMap LogRow) (e : Text × LogRow)
    → Keyed m
    → Among e (latest_rows grantees log m)
    → IsLatest grantees log e.1 ⊎ (Among e m × Silent grantees log (log_key e.1))
unfolding latest_rows
latest_rows-IsLatest grantees [] m e d h = inr (h, tt)
latest_rows-IsLatest grantees (r ∷ log) m e d h =
    by_test (is_one_of grantees r.grantee && is_settled r.status) refl (λ d₁.
      latest_rows-IsLatest grantees log
        (if is_one_of grantees r.grantee && is_settled r.status then insert (log_key r) r m else m)
        e d₁ h)
  where
    by_test :
        (b : Bool)
        → (is_one_of grantees r.grantee && is_settled r.status) ≡ b
        → (Keyed (if b then insert (log_key r) r m else m)
            → IsLatest grantees log e.1
              ⊎ (Among e (if b then insert (log_key r) r m else m)
                  × Silent grantees log (log_key e.1)))
        → IsLatest grantees (r ∷ log) e.1 ⊎ (Among e m × Silent grantees (r ∷ log) (log_key e.1))
    by_test false t rest = elim (rest d) [
      | inl later ↦ inl (inl later)
      | inr (member, silent) ↦ inr (member, (and_false _ _ t, silent))
    ]
    by_test true t rest = elim (rest (insert-Keyed r m d)) [
      | inl later ↦ inl (inl later)
      | inr (member, silent) ↦ elim (Among-insert (log_key r) r m e d.0 member) [
        | inl new ↦ inl (inr (sym new, rw new ((and-eq-true_iff _ _).0 t), silent))
        | inr (old, differs) ↦
            let own : e.0 ≡ log_key e.1 = All-Among (λ f. f.0 ≡ log_key f.1) m e d.1 old in
            inr (old, (and_false_left _ _ (rw own at differs), silent))
      ]
    ]

-- A level that is in force stands on an active grant on the chain, or on the latest settled row of the
-- log for its passport and grantee, which is a grant.
pub effective_grants_for-InForce :
    (grantees : List Text) (chain : Option (List ChainGrant)) (log : Option (List LogRow))
    → (passports : List PassportHash) (hash : Text) (n : ℕ)
    → lookup hash (effective_grants_for grantees chain log passports) ≡ some n
    → OnChain grantees (rows_of chain) hash n ⊎ InLog grantees (rows_of log) passports hash n
unfolding effective_grants_for
effective_grants_for-InForce [] chain log passports hash n h = ground arith
effective_grants_for-InForce (g ∷ gs) chain log passports hash n h =
    elim (lookup-bump_log hash n passports (latest_rows (g ∷ gs) (rows_of log) []) _ h) [
      | inl raised ↦ elim (lookup-bump_chain (g ∷ gs) hash n (rows_of chain) [] raised) [
        | inl nothing ↦ ground arith
        | inr found ↦ inl found
      ]
      | inr (e, member, granted, hashed, level) ↦
          elim (latest_rows-IsLatest (g ∷ gs) (rows_of log) [] e (tt, tt) member) [
            | inl latest ↦ inr (e.1, latest, granted, hashed, level)
            | inr (nothing, silent) ↦ absurd nothing
          ]
    ]
