-- ===== src/DemoValidation.antt =====
-- srv/lib/demo-validation.ts, and demoProfile of srv/lib/demo-claims.ts with isProfileId of
-- srv/lib/product-profiles.ts: the check of the whole input of a demo run. A raw value is what
-- `String(v ?? '')` and `Number(v)` make of it. An error message is a constructor.
pub mod Accepted
pub mod Profiles
mod Tests
use nightpass.Base.{
  ◌≡◌, Bool, true, false, not, ◌&&◌, ◌||◌, List, [], ◌∷◌, ◌++◌, map, Option, none, some, Text,
  codes, text_eq, lower, any, find, or_else, is_empty, if◌then◌else◌, Result, ok, err, ◌>>=◌,
}
use nightpass.Base.JsNumber.{JsNumber, is_finite, num_le, infinite, minus_infinite}
use nightpass.Base.Splits.{trim}
use nightpass.DemoClaims.{
  HeadKind, text, number, select, HeadValue, string_value, number_value, DemoHeadField,
  DemoProfileSpec, DemoClaim, ClaimSet, RawEntry, ClaimError, ClaimValidation, validate_claims,
  head_text_upto,
}
use nightpass.DemoClaims.Catalog.{battery_spec, component_spec}

pub data ProfileInput : Type 0 where
  absent other : ProfileInput
  given : Text → ProfileInput

pub data ProfileError : Type 0 where
  -- the error that is thrown and caught
  unknown_profile : ProfileError
  -- what is looked up has no head, and reading it throws
  no_profile : ProfileError

-- The names that `in` finds on the prototype of every object.
abbrev pub inherited_names : List Text
inherited_names =
    codes "constructor"
    ∷ codes "toString"
    ∷ codes "toLocaleString"
    ∷ codes "valueOf"
    ∷ codes "hasOwnProperty"
    ∷ codes "isPrototypeOf"
    ∷ codes "propertyIsEnumerable"
    ∷ codes "__proto__"
    ∷ codes "__defineGetter__"
    ∷ codes "__defineSetter__"
    ∷ codes "__lookupGetter__"
    ∷ codes "__lookupSetter__"
    ∷ []

-- `v in APP_PROFILES`
unfoldable pub is_profile_id : Text → Bool
unfolding text_eq
is_profile_id s =
    text_eq s (codes "battery") || text_eq s (codes "component") || any (text_eq s) inherited_names

-- `DEMO_PROFILES[id]`
abbrev pub profile_at : Text → Result ProfileError DemoProfileSpec
profile_at s =
    if text_eq s (codes "battery")
    then ok battery_spec
    else if text_eq s (codes "component")
    then ok component_spec
    else err no_profile

unfoldable pub demo_profile : ProfileInput → Result ProfileError DemoProfileSpec
unfolding is_profile_id text_eq
demo_profile absent = ok battery_spec
demo_profile other = err unknown_profile
demo_profile (given s) =
    if is_empty s
    then ok battery_spec
    else if not (is_profile_id s)
    then err unknown_profile
    else profile_at s

pub record RawValue : Type 0 where
  pub as_text : Text
  pub as_number : JsNumber

pub record RawInput : Type 0 where
  pub profile : ProfileInput
  pub head : Text → RawValue
  pub claims : Option (List RawEntry)
  -- `raw.secondLife === true || raw.secondLife === 'true'`
  pub second_life : Bool

pub data DemoError : Type 0 where
  bad_profile no_second_life : DemoError
  bad_number bad_option bad_text : Text → DemoError
  bad_claim : ClaimError → DemoError

pub record DemoInput : Type 0 where
  pub profile : DemoProfileSpec
  pub head : List HeadValue
  pub claims : List DemoClaim
  pub second_life : Bool

pub data DemoValidation : Type 0 where
  rejected : List DemoError → DemoValidation
  accepted : DemoInput → DemoValidation

abbrev pub option_or : Text → Option Text → Result DemoError HeadValue
option_or name none = err (bad_option name)
option_or name (some o) = ok (string_value o)

-- One round of the loop over the head fields: an error, or the value that is stored.
abbrev pub check_head : HeadKind → DemoHeadField → RawValue → Result DemoError HeadValue
check_head number f v =
    if is_finite v.as_number
      && num_le (or_else f.min minus_infinite) v.as_number
      && num_le v.as_number (or_else f.max infinite)
    then ok (number_value v.as_number)
    else err (bad_number f.name)
check_head select f v =
    option_or f.name (find (λ o. text_eq (lower o) (lower (trim v.as_text))) f.options)
check_head text f v =
    if or_else f.pattern (head_text_upto 40) (trim v.as_text)
    then ok (string_value (trim v.as_text))
    else err (bad_text f.name)

abbrev pub add_head :
    Result DemoError HeadValue → List DemoError × List HeadValue → List DemoError × List HeadValue
add_head (err e) rest = (e ∷ rest.0, rest.1)
add_head (ok v) rest = (rest.0, v ∷ rest.1)

-- The errors and the stored values, in the order of the fields.
unfoldable pub check_heads :
    List DemoHeadField → (Text → RawValue) → List DemoError × List HeadValue
unfolding text_eq lower trim head_text_upto
check_heads [] head = ([], [])
check_heads (f ∷ fs) head = add_head (check_head f.kind f (head f.name)) (check_heads fs head)

abbrev pub conclude : List DemoError → DemoInput → DemoValidation
conclude [] v = accepted v
conclude (e ∷ es) v = rejected (e ∷ es)

module _ (sets : Text → Option ClaimSet) where
  abbrev pub second_life_errors : DemoProfileSpec → Bool → List DemoError
  second_life_errors profile wanted =
      if wanted && not profile.second_life then no_second_life ∷ [] else []

  abbrev pub validate_against : DemoProfileSpec → RawInput → DemoValidation
  validate_against profile raw =
      let heads = check_heads profile.head raw.head in
      let checked = validate_claims sets profile raw.claims in
      conclude
        (heads.0 ++ (map bad_claim checked.errors ++ second_life_errors profile raw.second_life))
        (record {
          profile = profile;
          head = heads.1;
          claims = checked.claims;
          second_life = raw.second_life;
        })

  abbrev pub after_profile :
      Result ProfileError DemoProfileSpec → RawInput → Result ProfileError DemoValidation
  after_profile (ok profile) raw = ok (validate_against profile raw)
  after_profile (err unknown_profile) raw = ok (rejected (bad_profile ∷ []))
  after_profile (err no_profile) raw = err no_profile

  unfoldable pub validate_demo_input : RawInput → Result ProfileError DemoValidation
  unfolding demo_profile check_heads validate_claims
  validate_demo_input raw = after_profile (demo_profile raw.profile) raw

abbrev pub nickname_of : Text → Option Text
nickname_of s = if is_empty s then none else if head_text_upto 24 s then some s else none

-- `raw` is `String(raw ?? '')`.
unfoldable pub valid_nickname : Text → Option Text
unfolding trim head_text_upto
valid_nickname raw = nickname_of (trim raw)
