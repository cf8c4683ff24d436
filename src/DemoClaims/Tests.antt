-- ===== src/DemoClaims/Tests.antt =====
-- Claim lists of the component family.
use nightpass.Base.{
  ◌≡◌, ap, refl, true, false, List, [], ◌∷◌, length, Option, none, some, Text, codes, text_eq,
  Distinct,
}
use nightpass.Base.JsNumber.{int, nan}
use nightpass.Base.Maps.{lookup, insert}
use nightpass.Base.Patterns.{skip_spaces}
use nightpass.Base.Splits.{trim, drop_end}
use nightpass.ProofPlan.{less_or_equal}
use nightpass.DemoClaims.{
  ClaimSet, RawEntry, DemoClaim, numeric_claim, member_claim, DemoClaimField, membership,
  ClaimValidation, validate_claims, validate_loop, claim_field_by_name, check_membership,
  check_numeric, not_an_array, duplicate, not_true, value_range, primary_required, head_text_upto,
}
use nightpass.DemoClaims.Catalog.{component_spec}
use nightpass.DemoClaims.Fitting.{Fits, claim_field}
use nightpass.DemoClaims.Valid.{IsRun, validate_claims-IsRun}
use nightpass.DemoClaims.Resolved.{
  demo_claim_list, resolve_all, by_field, resolved_number, resolved_member,
}

opened : Unit {0}
unfolding validate_claims validate_loop claim_field_by_name check_membership check_numeric text_eq
    trim drop_end skip_spaces head_text_upto demo_claim_list resolve_all by_field lookup insert
opened = tt

-- Every set has the same two methods.
abbrev sets : Text → Option ClaimSet
sets id = some (record { label = codes "NDT"; values = codes "UT" ∷ codes "RT" ∷ [] })

abbrev cobalt : RawEntry
cobalt = record {
  field = codes " cobaltContentPpm";
  member = [];
  value = int 120;
  threshold = int 200;
}

abbrev method : RawEntry
method = record { field = codes "testMethod"; member = codes "RT "; value = nan; threshold = nan }

abbrev entries : List RawEntry
entries = method ∷ cobalt ∷ []

abbrev claims : List DemoClaim
claims =
    member_claim (codes "testMethod") (codes "RT")
    ∷ numeric_claim (codes "cobaltContentPpm") (int 120) (int 200)
    ∷ []

abbrev passed : ClaimValidation
passed = record { ok = true; errors = []; claims = claims }

runs :
    (validate_claims sets component_spec (some entries) ≡ passed)
    × ((validate_claims sets component_spec none).errors ≡ (not_an_array ∷ []))
    × ((validate_claims sets component_spec
          (some (method ∷ method ∷ record method { member = codes "MT" } ∷ []))).errors
        ≡ (duplicate (codes "testMethod")
            ∷ duplicate (codes "testMethod")
            ∷ primary_required (codes "cobaltContentPpm")
            ∷ []))
    × ((validate_claims sets component_spec
          (some (record cobalt { threshold = int 100 } ∷ []))).errors
        ≡ (not_true (codes "cobaltContentPpm") (int 120) less_or_equal (int 100) ∷ []))
    × ((validate_claims sets component_spec (some (record cobalt { value = nan } ∷ []))).errors
        ≡ (value_range (codes "cobaltContentPpm") (int 1) (int 5000) ∷ []))
    × (demo_claim_list sets component_spec claims ≡ (
        resolved_number
          (codes "cobaltContentPpm")
          (int 120)
          (int 200)
          less_or_equal
          (codes "ppm")
          (codes "Cobalt content")
        ∷ resolved_member
            (codes "testMethod")
            (codes "RT")
            (codes "ndt-approved")
            (codes "NDT")
            (codes "Qualification test method")
        ∷ []))
unfolding opened
runs = (refl, refl, refl, refl, refl, refl)

entries_pass : (validate_claims sets component_spec (some entries)).ok ≡ true
entries_pass = ap (λ (v : ClaimValidation). v.ok) runs.0

validate_claims-IsRun_example :
    (es : List RawEntry) × (some entries ≡ some es)
    × IsRun sets component_spec
        (length es)
        (validate_claims sets component_spec (some entries)).claims
validate_claims-IsRun_example =
    validate_claims-IsRun sets component_spec (some entries) entries_pass

claims-Distinct : Distinct claim_field claims
unfolding text_eq
claims-Distinct =
    (((λ e. let off : true ≡ false = ap (text_eq (codes "testMethod")) e in cc off), tt), (tt, tt))

abbrev test_method : DemoClaimField
test_method = membership (record {
  field = codes "testMethod";
  label = codes "Qualification test method";
  set_id = codes "ndt-approved";
  default_value = codes "UT";
})

known : claim_field_by_name component_spec (codes "testMethod") ≡ some test_method
unfolding opened
known = refl

fits : Fits sets test_method (member_claim (codes "testMethod") (codes "RT"))
unfolding opened
fits = (refl, refl)
