-- ===== src/DemoClaims/Resolved.antt =====
-- The claim list of a run in the order of the catalog (demoClaimList).
use nightpass.Base.{
  ◌≡◌, ◌≢◌, inl, inr, refl, sym, List, [], ◌∷◌, Option, none, some, Text, text_eq, text_eq_iff,
  find, Among, All, Distinct, Bool-cases,
}
use nightpass.Base.JsNumber.{JsNumber}
use nightpass.Base.Maps.{TextMap, lookup, insert, lookup-insert}
use nightpass.ProofPlan.{Op}
use nightpass.DemoClaims.{
  ClaimSet, DemoClaimField, numeric, membership, field_name, DemoClaim, numeric_claim, member_claim,
  DemoProfileSpec, claim_field_by_name, list_label,
}
use nightpass.DemoClaims.Fitting.{claim_field, Fits}

pub data ResolvedClaim : Type 0 where
  resolved_number :
      (field : Text) (value threshold : JsNumber) (direction : Op) (unit label : Text)
      → ResolvedClaim
  resolved_member : (field member set_id set_label label : Text) → ResolvedClaim

-- `new Map(claims.map((c) => [c.field, c]))`
unfoldable pub by_field : List DemoClaim → TextMap DemoClaim → TextMap DemoClaim
unfolding insert
by_field [] m = m
by_field (c ∷ cs) m = by_field cs (insert (claim_field c) c m)

module _ (sets : Text → Option ClaimSet) where
  -- One round of the loop: what is pushed, if anything.
  abbrev pub resolved : DemoClaimField → Option DemoClaim → Option ResolvedClaim
  resolved (membership s) (some (member_claim f m)) =
      some (resolved_member s.field m s.set_id (list_label sets (sets s.set_id) s.set_id) s.label)
  resolved (numeric s) (some (numeric_claim f v t)) =
      some (resolved_number s.field v t s.direction s.unit s.label)
  resolved _ _ = none

  abbrev pub push : Option ResolvedClaim → List ResolvedClaim → List ResolvedClaim
  push none rest = rest
  push (some r) rest = r ∷ rest

  unfoldable pub resolve_all : List DemoClaimField → TextMap DemoClaim → List ResolvedClaim
  unfolding lookup
  resolve_all [] m = []
  resolve_all (spec ∷ specs) m =
      push (resolved spec (lookup (field_name spec) m)) (resolve_all specs m)

  unfoldable pub demo_claim_list : DemoProfileSpec → List DemoClaim → List ResolvedClaim
  unfolding resolve_all by_field
  demo_claim_list profile claims = resolve_all profile.claims (by_field claims [])

lookup-by_field-absent :
    (k : Text) (cs : List DemoClaim) (m : TextMap DemoClaim)
    → All (λ c. k ≢ claim_field c) cs
    → lookup k (by_field cs m) ≡ lookup k m
unfolding by_field
lookup-by_field-absent k [] m h = refl
lookup-by_field-absent k (c ∷ cs) m (differs, h) =
    rw
      (
        lookup-by_field-absent k cs (insert (claim_field c) c m) h,
        lookup-insert (claim_field c) k c m,
      )
      (elim (Bool-cases (text_eq (claim_field c) k)) [
        | inl e ↦ absurd (differs (sym ((text_eq_iff (claim_field c) k).0 e)))
        | inr e ↦ rw e refl
      ])

lookup-by_field :
    (c : DemoClaim) (cs : List DemoClaim) (m : TextMap DemoClaim)
    → Distinct claim_field cs
    → Among c cs
    → lookup (claim_field c) (by_field cs m) ≡ some c
unfolding by_field
lookup-by_field c [] m d h = elim h [ ]
lookup-by_field c (e ∷ cs) m (apart, d) (inr h) =
    lookup-by_field c cs (insert (claim_field e) e m) d h
lookup-by_field c (e ∷ cs) m (apart, d) (inl same) =
    let hit = (text_eq_iff (claim_field e) (claim_field e)).1 refl in
    rw
      (
        same,
        lookup-by_field-absent (claim_field e) cs (insert (claim_field e) e m) apart,
        lookup-insert (claim_field e) (claim_field e) e m,
        hit,
      )
      refl

module _ (sets : Text → Option ClaimSet) where
  Among-push :
      (r : ResolvedClaim) (o : Option ResolvedClaim) (rest : List ResolvedClaim)
      → Among r rest
      → Among r (push sets o rest)
  Among-push r none rest h = h
  Among-push r (some s) rest h = inr h

  Among-resolve_all :
      (specs : List DemoClaimField) (m : TextMap DemoClaim) (spec : DemoClaimField)
      (r : ResolvedClaim) (f : Text)
      → find (λ s. text_eq (field_name s) f) specs ≡ some spec
      → resolved sets spec (lookup f m) ≡ some r
      → (field_name spec ≡ f) × Among r (resolve_all sets specs m)
  unfolding resolve_all
  Among-resolve_all [] m spec r f found h = absurd (cc)
  Among-resolve_all (s ∷ specs) m spec r f found h = elim (Bool-cases (text_eq (field_name s) f)) [
    | inl e ↦
        let same : s ≡ spec = cc (rw e at found) in
        let named : field_name s ≡ f = (text_eq_iff (field_name s) f).0 e in
        (rw same at named, rw (named, same, h) (inl refl))
    | inr e ↦
        let (named, member) = Among-resolve_all specs m spec r f (rw e at found) h in
        (
          named,
          Among-push r (resolved sets s (lookup (field_name s) m)) (resolve_all sets specs m)
              member,
        )
  ]

  -- What a claim resolves to: the entry's own name, label and unit, and the claim's value.
  abbrev pub Resolves : DemoClaimField → DemoClaim → ResolvedClaim → Type 0
  Resolves spec c r = resolved sets spec (some c) ≡ some r

  Fits-resolved :
      (spec : DemoClaimField) (c : DemoClaim)
      → Fits sets spec c
      → (r : ResolvedClaim) × Resolves spec c r
  Fits-resolved (numeric s) (numeric_claim f v t) h =
      (resolved_number s.field v t s.direction s.unit s.label, refl)
  Fits-resolved (membership s) (member_claim f m) h =
      (resolved_member s.field m s.set_id (list_label sets (sets s.set_id) s.set_id) s.label, refl)
  Fits-resolved (numeric s) (member_claim f m) h = elim h [ ]
  Fits-resolved (membership s) (numeric_claim f v t) h = elim h [ ]

  -- Of claims for distinct fields, none that fits its entry of the catalog is left out of the list: it
  -- stands there, resolved with that entry.
  pub demo_claim_list-Among :
      (profile : DemoProfileSpec) (claims : List DemoClaim) (c : DemoClaim) (spec : DemoClaimField)
      → Distinct claim_field claims
      → Among c claims
      → claim_field_by_name profile (claim_field c) ≡ some spec
      → Fits sets spec c
      → (r : ResolvedClaim) × Resolves spec c r × Among r (demo_claim_list sets profile claims)
  unfolding demo_claim_list claim_field_by_name
  demo_claim_list-Among profile claims c spec d member known fits =
      let (r, e) = Fits-resolved spec c fits in
      let at_c = lookup-by_field c claims [] d member in
      let (named, found) =
        Among-resolve_all profile.claims (by_field claims []) spec r (claim_field c) known
          (rw at_c e) in
      (r, e, found)
