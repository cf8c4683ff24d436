-- ===== src/DemoValidation/Profiles.antt =====
-- When the lookup of the profile makes the check throw.
use nightpass.Base.{
  ◌≡◌, ◌↔◌, refl, arith, Bool, true, false, not, ◌||◌, [], ◌∷◌, Option, Text, codes, text_eq,
  text_eq_iff, any, is_empty, if◌then◌else◌, Bool-cases, inl, inr, Result, ok, err,
}
use nightpass.DemoClaims.{DemoProfileSpec, ClaimSet}
use nightpass.DemoClaims.Catalog.{battery_spec, component_spec}
use nightpass.DemoValidation.{
  ProfileInput, absent, other, given, ProfileError, unknown_profile, no_profile, inherited_names,
  is_profile_id, demo_profile, RawInput, after_profile, validate_demo_input,
}

choice_iff :
    (e b c i : Bool) (first second : DemoProfileSpec)
    → ((if e
          then ok first
          else if not (b || c || i)
          then err unknown_profile
          else if b
          then ok first
          else if c
          then ok second
          else err no_profile)
        ≡ err no_profile)
      ↔ ((e ≡ false) × (b ≡ false) × (c ≡ false) × (i ≡ true))
choice_iff e b c i first second =
    ((λ h. (ground arith, ground arith, ground arith, ground arith)), λ h. ground arith)

abbrev is_inherited : Text → Bool
is_inherited s = any (text_eq s) inherited_names

not_inherited :
    (is_inherited [] ≡ false)
    × (is_inherited (codes "battery") ≡ false)
    × (is_inherited (codes "component") ≡ false)
unfolding text_eq
not_inherited = (refl, refl, refl)

differs_from : (s t : Text) → is_inherited t ≡ false → is_inherited s ≡ true → text_eq s t ≡ false
differs_from s t off on = elim (Bool-cases (text_eq s t)) [
  | inr e ↦ e
  | inl e ↦ let same : s ≡ t = (text_eq_iff s t).0 e in absurd (cc (off))
]

inherited_given : (s : Text) → is_inherited s ≡ true → is_empty s ≡ false
inherited_given [] on = absurd (cc (not_inherited.0, on))
inherited_given (c ∷ s) on = refl

demo_profile-no_profile_iff :
    (p : ProfileInput)
    → (demo_profile p ≡ err no_profile) ↔ ((s : Text) × (p ≡ given s) × (is_inherited s ≡ true))
unfolding demo_profile is_profile_id
demo_profile-no_profile_iff absent = ((λ h. absurd (cc)), λ (s, e, on). absurd (cc))
demo_profile-no_profile_iff other = ((λ h. absurd (cc)), λ (s, e, on). absurd (cc))
demo_profile-no_profile_iff (given s) =
    let (there, back) =
      choice_iff (is_empty s) (text_eq s (codes "battery")) (text_eq s (codes "component"))
        (is_inherited s) battery_spec component_spec in
    (
      (λ h. (s, refl, (there h).3)),
      λ (t, e, on).
          let same : s ≡ t = cc in
          let on' : is_inherited s ≡ true = rw same on in
          back (
            inherited_given s on',
            differs_from s (codes "battery") not_inherited.1 on',
            differs_from s (codes "component") not_inherited.2 on',
            on',
          ),
    )

-- The check throws exactly if the profile is given by a name that every object inherits, which passes
-- for the id of a profile.
pub validate_demo_input-no_profile_iff :
    (sets : Text → Option ClaimSet) (raw : RawInput)
    → (validate_demo_input sets raw ≡ err no_profile)
      ↔ ((s : Text) × (raw.profile ≡ given s) × (any (text_eq s) inherited_names ≡ true))
unfolding validate_demo_input
validate_demo_input-no_profile_iff sets raw =
    let (there, back) = demo_profile-no_profile_iff raw.profile in
    ((λ h. there (only (demo_profile raw.profile) h)), λ h. let e = back h in rw e refl)
  where
    only :
        (r : Result ProfileError DemoProfileSpec)
        → after_profile sets r raw ≡ err no_profile
        → r ≡ err no_profile
    only (ok profile) h = absurd (cc)
    only (err unknown_profile) h = absurd (cc)
    only (err no_profile) h = refl
