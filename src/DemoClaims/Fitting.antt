-- ===== src/DemoClaims/Fitting.antt =====
-- What an entry that is taken has passed.
use nightpass.Base.{
  ◌≡◌, refl, Bool, true, false, not, ◌&&◌, ◌||◌, and-eq-true_iff, Option, Text, is_empty,
  if◌then◌else◌,
}
use nightpass.Base.JsNumber.{is_finite, num_le, double}
use nightpass.Base.Splits.{trim}
use nightpass.DemoClaims.{
  DemoClaimField, numeric, membership, DemoClaim, numeric_claim, member_claim, ClaimSet, RawEntry,
  ClaimError, claim_holds, bad, good, is_member, check_membership, check_numeric, check_entry,
}

abbrev pub claim_field : DemoClaim → Text
claim_field (numeric_claim f v t) = f
claim_field (member_claim f m) = f

-- A true claim with both numbers in range, or a member of the allow-list.
abbrev pub Fits : (Text → Option ClaimSet) → DemoClaimField → DemoClaim → Type 0
Fits sets (numeric s) (numeric_claim f v t) =
    (is_finite v ≡ true)
    × (num_le s.min v ≡ true)
    × (num_le v s.max ≡ true)
    × (is_finite t ≡ true)
    × (num_le s.min t ≡ true)
    × (num_le t (double s.max) ≡ true)
    × (claim_holds s v t ≡ true)
Fits sets (membership s) (member_claim f m) =
    (is_empty m ≡ false) × (is_member sets (sets s.set_id) m ≡ true)
Fits sets _ _ = ⊥

module _ (sets : Text → Option ClaimSet) where
  three_checks :
      (a b c : Bool) (e f g : ClaimError) (made claim : DemoClaim)
      → (if not a then bad e else if not b then bad f else if not c then bad g else good made)
        ≡ good claim
      → (a ≡ true) × (b ≡ true) × (c ≡ true) × (made ≡ claim)
  three_checks true true true e f g made claim h = (refl, refl, refl, cc)
  three_checks false b c e f g made claim h = absurd (cc)
  three_checks true false c e f g made claim h = absurd (cc)
  three_checks true true false e f g made claim h = absurd (cc)

  one_check :
      (a b : Bool) (e : ClaimError) (made claim : DemoClaim)
      → (if a || not b then bad e else good made) ≡ good claim
      → (a ≡ false) × (b ≡ true) × (made ≡ claim)
  one_check false true e made claim h = (refl, refl, cc)
  one_check true b e made claim h = absurd (cc)
  one_check false false e made claim h = absurd (cc)

  pub check_entry-Fits :
      (spec : DemoClaimField) (field : Text) (e : RawEntry) (c : DemoClaim)
      → check_entry sets spec field e ≡ good c
      → (claim_field c ≡ field) × Fits sets spec c
  unfolding check_membership check_numeric
  check_entry-Fits (numeric s) field e c h =
      let (in_range, target, holds, same) =
        three_checks (is_finite e.value && num_le s.min e.value && num_le e.value s.max)
          (is_finite e.threshold && num_le s.min e.threshold && num_le e.threshold (double s.max))
          (claim_holds s e.value e.threshold) _ _ _ _ c h in
      let (lower, a) = (and-eq-true_iff (is_finite e.value && num_le s.min e.value) _).0 in_range in
      let (finite, b) = (and-eq-true_iff (is_finite e.value) _).0 lower in
      let (lower', a') =
        (and-eq-true_iff (is_finite e.threshold && num_le s.min e.threshold) _).0 target in
      let (finite', b') = (and-eq-true_iff (is_finite e.threshold) _).0 lower' in
      rw (← same) (refl, (finite, b, a, finite', b', a', holds))
  check_entry-Fits (membership s) field e c h =
      let (given, member, same) =
        one_check (is_empty (trim e.member)) (is_member sets (sets s.set_id) (trim e.member)) _ _ c
          h in
      rw (← same) (refl, (given, member))
