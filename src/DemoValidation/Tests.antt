-- ===== src/DemoValidation/Tests.antt =====
-- Inputs of a demo run.
use nightpass.Base.{
  ◌≡◌, ◌↔◌, refl, true, false, [], ◌∷◌, Option, none, some, Text, codes, text_eq, lower, any,
  if◌then◌else◌, ok, err,
}
use nightpass.Base.JsNumber.{int, nan}
use nightpass.Base.Patterns.{skip_spaces}
use nightpass.Base.Splits.{trim, drop_end}
use nightpass.DemoClaims.{
  ClaimSet, numeric_claim, validate_claims, validate_loop, claim_field_by_name, check_membership,
  check_numeric, head_text_upto, string_value, number_value,
}
use nightpass.DemoClaims.Catalog.{component_spec}
use nightpass.DemoValidation.{
  given, no_profile, inherited_names, demo_profile, is_profile_id, RawInput, DemoInput, rejected,
  accepted, bad_profile, check_heads, validate_demo_input, valid_nickname,
}
use nightpass.DemoValidation.Accepted.{IsInput, validate_demo_input-IsInput}
use nightpass.DemoValidation.Profiles.{validate_demo_input-no_profile_iff}

opened : Unit {0}
unfolding validate_demo_input demo_profile is_profile_id check_heads valid_nickname validate_claims
    validate_loop claim_field_by_name check_membership check_numeric text_eq lower trim drop_end
    skip_spaces head_text_upto
opened = tt

abbrev sets : Text → Option ClaimSet
sets id = none

-- Every head field has the same text and the number 7.
abbrev raw : RawInput
raw = record {
  profile = given (codes "component");
  head = λ name. record { as_text = codes "2  1"; as_number = int 7 };
  claims = some (
      record { field = codes "cobaltContentPpm"; member = []; value = int 3; threshold = int 4 }
      ∷ []);
  second_life = false;
}

abbrev fitting : RawInput
fitting = record raw {
  head = λ name.
      if text_eq name (codes "SafetyClass")
      then record { as_text = codes " 2"; as_number = nan }
      else record { as_text = codes "Nozzle_1 "; as_number = int 7 };
}

abbrev value : DemoInput
value = record {
  profile = component_spec;
  head =
      string_value (codes "Nozzle_1")
      ∷ string_value (codes "Nozzle_1")
      ∷ number_value (int 7)
      ∷ string_value (codes "2")
      ∷ [];
  claims = numeric_claim (codes "cobaltContentPpm") (int 3) (int 4) ∷ [];
  second_life = false;
}

runs :
    (validate_demo_input sets fitting ≡ ok (accepted value))
    × (validate_demo_input sets (record raw { profile = given (codes "toString") })
        ≡ err no_profile)
    × (validate_demo_input sets (record raw { profile = given (codes "bike") })
        ≡ ok (rejected (bad_profile ∷ [])))
    × (valid_nickname (codes " Ada-1 ") ≡ some (codes "Ada-1"))
    × (valid_nickname (codes "a") ≡ none)
unfolding opened
runs = (refl, refl, refl, refl, refl)

validate_demo_input-IsInput_example : IsInput sets fitting value
validate_demo_input-IsInput_example = validate_demo_input-IsInput sets fitting value runs.0

validate_demo_input-no_profile_iff_example : (validate_demo_input sets raw ≡ err no_profile) ↔ (
    (s : Text) × (given (codes "component") ≡ given s) × (any (text_eq s) inherited_names ≡ true))
validate_demo_input-no_profile_iff_example = validate_demo_input-no_profile_iff sets raw
