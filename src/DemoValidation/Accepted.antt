-- ===== src/DemoValidation/Accepted.antt =====
-- What an input that is accepted holds, and when the check throws.
use nightpass.Base.{
  ◌≡◌, refl, arith, Bool, true, ◌&&◌, and-eq-true_iff, List, [], ◌∷◌, ◌++◌, map, Option, none, some,
  Text, text_eq, text_eq_refl, any, find, or_else, length, Bool-cases, inl, inr, Result, ok, err,
}
use nightpass.Base.JsNumber.{is_finite, num_le, infinite, minus_infinite}
use nightpass.Base.Splits.{trim}
use nightpass.DemoClaims.{
  HeadKind, text, number, select, HeadValue, string_value, number_value, DemoHeadField,
  DemoProfileSpec, ClaimSet, RawEntry, head_text_upto,
}
use nightpass.DemoClaims.Valid.{IsRun, validate_claims-IsRun, validate_claims-no_errors}
use nightpass.DemoValidation.{
  ProfileError, unknown_profile, no_profile, demo_profile, RawValue, RawInput, DemoError, DemoInput,
  accepted, option_or, check_head, add_head, check_heads, conclude, second_life_errors,
  validate_against, after_profile, validate_demo_input,
}

-- A stored value is in the range of its field, one of its options, or matches its pattern.
abbrev pub FitsHead : HeadKind → DemoHeadField → HeadValue → Type 0
FitsHead number f (number_value n) =
    (is_finite n ≡ true)
    × (num_le (or_else f.min minus_infinite) n ≡ true)
    × (num_le n (or_else f.max infinite) ≡ true)
FitsHead select f (string_value o) = any (text_eq o) f.options ≡ true
FitsHead text f (string_value s) = or_else f.pattern (head_text_upto 40) s ≡ true
FitsHead _ _ _ = ⊥

-- One value for each field, in order.
abbrev pub FitHeads : List DemoHeadField → List HeadValue → Type 0
FitHeads [] [] = Unit
FitHeads (f ∷ fs) (v ∷ vs) = FitsHead f.kind f v × FitHeads fs vs
FitHeads _ _ = ⊥

find-member :
    (q : Text → Bool) (os : List Text) (o : Text) → find q os ≡ some o → any (text_eq o) os ≡ true
find-member q [] o h = absurd (cc)
find-member q (x ∷ os) o h = elim (Bool-cases (q x)) [
  | inl e ↦ let same : x ≡ o = cc (rw e at h) in rw same (ground (arith, text_eq_refl o))
  | inr e ↦ let ih = find-member q os o (rw e at h) in ground arith
]

option_or-ok :
    (name : Text) (found : Option Text) (v : HeadValue)
    → option_or name found ≡ ok v
    → (o : Text) × (found ≡ some o) × (string_value o ≡ v)
option_or-ok name none v h = absurd (cc)
option_or-ok name (some o) v h = (o, refl, cc)

check_head-FitsHead :
    (kind : HeadKind) (f : DemoHeadField) (r : RawValue) (v : HeadValue)
    → check_head kind f r ≡ ok v
    → FitsHead kind f v
check_head-FitsHead number f r v h =
    elim (Bool-cases (
      is_finite r.as_number
      && num_le (or_else f.min minus_infinite) r.as_number
      && num_le r.as_number (or_else f.max infinite))) [
        | inl e ↦
            let (lower_ok, b) =
              (and-eq-true_iff
                  (is_finite r.as_number && num_le (or_else f.min minus_infinite) r.as_number) _).0
                e in
            let (fin, a) = (and-eq-true_iff (is_finite r.as_number) _).0 lower_ok in
            let same : number_value r.as_number ≡ v = cc (rw e at h) in rw (← same) (fin, a, b)
        | inr e ↦ absurd (cc (rw e at h))
      ]
check_head-FitsHead select f r v h =
    let (o, found, same) = option_or-ok f.name _ v h in
    rw (← same) (find-member _ f.options o found)
check_head-FitsHead text f r v h =
    elim (Bool-cases (or_else f.pattern (head_text_upto 40) (trim r.as_text))) [
      | inl e ↦ let same : string_value (trim r.as_text) ≡ v = cc (rw e at h) in rw (← same) e
      | inr e ↦ absurd (cc (rw e at h))
    ]

add_head-none :
    (r : Result DemoError HeadValue) (rest : List DemoError × List HeadValue)
    → (add_head r rest).0 ≡ []
    → (v : HeadValue) × (r ≡ ok v) × (rest.0 ≡ []) × ((add_head r rest).1 ≡ v ∷ rest.1)
add_head-none (err e) rest h = absurd (cc)
add_head-none (ok v) rest h = (v, refl, h, refl)

check_heads-FitHeads :
    (fs : List DemoHeadField) (head : Text → RawValue)
    → (check_heads fs head).0 ≡ []
    → FitHeads fs (check_heads fs head).1
unfolding check_heads
check_heads-FitHeads [] head h = tt
check_heads-FitHeads (f ∷ fs) head h =
    let (v, e, rest, same) =
      add_head-none (check_head f.kind f (head f.name)) (check_heads fs head) h in
    rw same (check_head-FitsHead f.kind f (head f.name) v e, check_heads-FitHeads fs head rest)

append-nil_iff : {A : Type 0} (xs ys : List A) → xs ++ ys ≡ [] → (xs ≡ []) × (ys ≡ [])
append-nil_iff [] ys h = (refl, h)
append-nil_iff (x ∷ xs) ys h = absurd (cc)

module _ (sets : Text → Option ClaimSet) where
  -- An input that may be run.
  pub record IsInput (raw : RawInput) (v : DemoInput) : Type 0 where
    pub known : demo_profile raw.profile ≡ ok v.profile
    pub heads : FitHeads v.profile.head v.head
    pub run :
        (entries : List RawEntry) × (raw.claims ≡ some entries)
        × IsRun sets v.profile (length entries) v.claims
    pub second_life : v.second_life ≡ true → v.profile.second_life ≡ true

  conclude-accepted :
      (es : List DemoError) (made v : DemoInput)
      → conclude es made ≡ accepted v
      → (es ≡ []) × (made ≡ v)
  conclude-accepted [] made v h = (refl, cc)
  conclude-accepted (e ∷ es) made v h = absurd (cc)

  map-nil : {A B : Type 0} (f : A → B) (xs : List A) → map f xs ≡ [] → xs ≡ []
  map-nil f [] h = refl
  map-nil f (x ∷ xs) h = absurd (cc)

  second_life_errors-nil :
      (profile : DemoProfileSpec) (wanted : Bool)
      → second_life_errors sets profile wanted ≡ []
      → wanted ≡ true
      → profile.second_life ≡ true
  second_life_errors-nil profile wanted h w = ground arith

  validate_against-IsInput :
      (profile : DemoProfileSpec) (raw : RawInput) (v : DemoInput)
      → demo_profile raw.profile ≡ ok profile
      → validate_against sets profile raw ≡ accepted v
      → IsInput raw v
  validate_against-IsInput profile raw v known h =
      let (no_errors, same) = conclude-accepted _ _ v h in
      let (heads_ok, rest) = append-nil_iff (check_heads profile.head raw.head).0 _ no_errors in
      let (claims_ok, life_ok) =
        append-nil_iff _ (second_life_errors sets profile raw.second_life) rest in
      let passed = validate_claims-no_errors sets profile raw.claims (map-nil _ _ claims_ok) in
      rw (← same) (record {
        known = known;
        heads = check_heads-FitHeads profile.head raw.head heads_ok;
        run = validate_claims-IsRun sets profile raw.claims passed;
        second_life = second_life_errors-nil profile raw.second_life life_ok;
      })

  -- An input that is accepted is of a known profile; each head field has a value in its range, of its
  -- options or of its pattern; the claims are a run, one for each entry; and a second life is asked for
  -- only where the profile offers it.
  pub validate_demo_input-IsInput :
      (raw : RawInput) (v : DemoInput)
      → validate_demo_input sets raw ≡ ok (accepted v)
      → IsInput raw v
  unfolding validate_demo_input
  validate_demo_input-IsInput raw v h = by_profile (demo_profile raw.profile) refl h
    where
      by_profile :
          (r : Result ProfileError DemoProfileSpec)
          → demo_profile raw.profile ≡ r
          → after_profile sets r raw ≡ ok (accepted v)
          → IsInput raw v
      by_profile (ok profile) known h = validate_against-IsInput profile raw v known (cc)
      by_profile (err unknown_profile) known h = absurd (cc)
      by_profile (err no_profile) known h = absurd (cc)
