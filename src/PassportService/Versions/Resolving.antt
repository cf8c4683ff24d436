-- ===== src/PassportService/Versions/Resolving.antt =====
-- What a hash is resolved to, and what a version that is reported as verified stands on.
use nightpass.Base.{
  ok-inj, ℕ, ◌≡◌, ◌≢◌, ◌⊎◌, inl, inr, refl, sym, ap, subst, Bool, true, false, List, [], ◌∷◌, find,
  Option, none, some, Text, codes, norm, text_eq, text_eq_iff, is_empty, is_lower_hex32, Among, All,
  find-Among, find-none, Option-cases, if◌then◌else◌, ok, require, >>=-inv, require-eq-ok,
  and-eq-true_iff,
}
use nightpass.Base.Splits.{Env}
use nightpass.PassportService.Networks.{some-inj}
use nightpass.PassportService.Verify.{AnchoredRow, VersionRow, VerifyError, bad_hash, unknown_hash}
use nightpass.PassportService.Versions.{
  or_error, has_hash, ResolvedHash, is_status, resolved_hash, with_version, of_version, current_or,
  resolve_by_hash,
}

-- The current anchor of the passport has the hash.
abbrev pub IsCurrent : List AnchoredRow → ResolvedHash → Type 0
IsCurrent table r =
    (r.version ≡ none) × Among r.row table × (r.row.payload_hash ≡ some r.payload_hash)

-- A version of the passport has it, and no current anchor.
abbrev pub IsSuperseded : List AnchoredRow → List VersionRow → ResolvedHash → Type 0
IsSuperseded table versions r =
    (v : VersionRow) × (q : AnchoredRow) × Among v versions
    × Among q table
    × (v.payload_hash ≡ some r.payload_hash)
    × (q.id ≡ v.passport)
    × (r.version ≡ some v.version)
    × (r.row ≡ record q { attestation_tx_hash = v.attestation_tx_hash })
    × All (λ p. p.payload_hash ≢ some r.payload_hash) table

has_hash-some : (raw : Text) (o : Option Text) → has_hash raw o ≡ true → o ≡ some raw
has_hash-some raw none h = absurd (cc)
has_hash-some raw (some t) h = rw ((text_eq_iff t raw).0 h) refl

not_both : {b : Bool} → b ≡ true → b ≡ false → ⊥
not_both h k = cc

has_hash-false : (raw : Text) (o : Option Text) → has_hash raw o ≡ false → o ≢ some raw
has_hash-false raw none h e = absurd (cc)
has_hash-false raw (some t) h e =
    let same : t ≡ raw = cc in absurd (not_both ((text_eq_iff t raw).1 same) h)

pub or_error-inv :
    {A : Type 0} (e : VerifyError) (o : Option A) (a : A) → or_error e o ≡ ok a → o ≡ some a
or_error-inv e none a h = absurd (cc)
or_error-inv e (some b) a h = cc

All-weaken :
    {A : Type 0} (P Q : A → Type 0) (xs : List A) → ((x : A) → P x → Q x) → All P xs → All Q xs
All-weaken P Q [] f h = tt
All-weaken P Q (x ∷ xs) f (here, h) = (f x here, All-weaken P Q xs f h)

module _ (env : Env) (table : List AnchoredRow) (versions : List VersionRow) where
  -- The row and the version are those of a current anchor with the hash, or of a superseded one.
  abbrev Fits : Text → AnchoredRow × Option ℕ → Type 0
  Fits raw found =
      IsCurrent table (resolved_hash env raw found.0 found.1)
      ⊎ IsSuperseded table versions (resolved_hash env raw found.0 found.1)

  of_version-Fits :
      (raw : Text) (found : AnchoredRow × Option ℕ)
      → All (λ p. p.payload_hash ≢ some raw) table
      → of_version table (find (λ v. has_hash raw v.payload_hash) versions) ≡ some found
      → Fits raw found
  of_version-Fits raw found new h =
      elim (Option-cases (find (λ v. has_hash raw v.payload_hash) versions)) [
        | inl e ↦ absurd (cc (rw e at h))
        | inr (v, e) ↦
            let (member, hashed) = find-Among (λ v. has_hash raw v.payload_hash) versions v e in
            by_passport v member (has_hash-some raw v.payload_hash hashed) (is_empty v.passport)
              (rw e at h)
      ]
    where
      by_passport :
          (v : VersionRow)
          → Among v versions
          → v.payload_hash ≡ some raw
          → (b : Bool)
          → (if b then none else with_version v (find (λ r. text_eq r.id v.passport) table))
            ≡ some found
          → Fits raw found
      by_passport v member hashed true k = absurd (cc)
      by_passport v member hashed false k =
          elim (Option-cases (find (λ r. text_eq r.id v.passport) table)) [
            | inl e ↦ absurd (cc (rw e at k))
            | inr (q, e) ↦
                let (stored, named) = find-Among (λ r. text_eq r.id v.passport) table q e in
                let same = some-inj (rw e at k) in
                inr (
                  v,
                  q,
                  member,
                  stored,
                  hashed,
                  (text_eq_iff q.id v.passport).0 named,
                  ap (λ f. f.1) (sym same),
                  ap (λ f. f.0) (sym same),
                  new,
                )
          ]

  found-Fits :
      (raw : Text) (found : AnchoredRow × Option ℕ)
      → current_or
          (find (λ r. has_hash raw r.payload_hash) table)
          (of_version table (find (λ v. has_hash raw v.payload_hash) versions))
        ≡ some found
      → Fits raw found
  found-Fits raw found h = elim (Option-cases (find (λ r. has_hash raw r.payload_hash) table)) [
    | inl e ↦
        let absent = find-none (λ r. has_hash raw r.payload_hash) table e in
        of_version-Fits raw found
          (All-weaken _ _ table (λ p k. has_hash-false raw p.payload_hash k) absent) (rw e at h)
    | inr (q, e) ↦
        let (stored, hashed) = find-Among (λ r. has_hash raw r.payload_hash) table q e in
        let same : (q, none) ≡ found = some-inj (rw e at h) in
        subst (λ f. Fits raw f) same (inl (refl, stored, has_hash-some raw q.payload_hash hashed))
  ]

  is_status-some : (status : Text) (o : Option Text) → is_status status o ≡ true → o ≡ some status
  is_status-some status none h = absurd (cc)
  is_status-some status (some t) h = rw ((text_eq_iff t status).0 h) refl

  abbrev pub Answers : Option Text → ResolvedHash → Type 0
  Answers asked r =
      (r.payload_hash ≡ norm asked)
      × (is_lower_hex32 r.payload_hash ≡ true)
      × (IsCurrent table r ⊎ IsSuperseded table versions r)
      × (r.locally_anchored ≡ true → r.row.status ≡ some (codes "anchored"))

  -- A hash is resolved to the passport whose current anchor has it, or else to one that has a version with
  -- it, with that version's number and transaction. It is 32 bytes of hex, and the passport is reported as
  -- anchored only if its status says so.
  pub resolve_by_hash-Resolves :
      (asked : Option Text) (r : ResolvedHash)
      → resolve_by_hash env asked table versions ≡ ok r
      → Answers asked r
  unfolding resolve_by_hash
  resolve_by_hash-Resolves asked r h =
      let (_, hex₀, h₁) = >>=-inv (require (is_lower_hex32 (norm asked)) bad_hash) _ h in
      let (found, looked, h₂) =
        >>=-inv
          (or_error unknown_hash (
            current_or (find (λ r. has_hash (norm asked) r.payload_hash) table)
              (of_version table (find (λ v. has_hash (norm asked) v.payload_hash) versions))))
          _ h₁ in
      let fits = found-Fits (norm asked) found (or_error-inv unknown_hash _ found looked) in
      let hex : is_lower_hex32 (norm asked) ≡ true = require-eq-ok _ bad_hash hex₀ in
      let same = ok-inj h₂ in
      subst (λ r. Answers asked r) same
        (
          refl,
          hex,
          fits,
          λ k. is_status-some (codes "anchored") found.0.status ((and-eq-true_iff _ _).0 k).0,
        )
