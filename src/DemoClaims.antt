-- ===== src/DemoClaims.antt =====
-- srv/lib/demo-claims.ts: the claims a visitor may prove and their validation. The allow-lists (the
-- SDK's claimSetById) are a parameter. A raw entry is what `String(...)` and `Number(...)` make of
-- its properties; a regular expression is the test for it.
pub mod Catalog
pub mod Fitting
pub mod Valid
pub mod Resolved
mod Tests
use nightpass.Base.{
  ℕ, ◌+◌, ◌≡◌, Bool, true, false, not, ◌&&◌, ◌||◌, List, [], ◌∷◌, ◌++◌, Option, none, some, Text,
  codes, text_eq, is_empty, all, any, find, length, leb, ltb, if◌then◌else◌, ◌==◌, text_or_empty,
}
use nightpass.Base.JsNumber.{JsNumber, is_finite, num_le, double}
use nightpass.Base.Splits.{trim}
use nightpass.Base.Patterns.{is_word}
use nightpass.ProofPlan.{Op, less_or_equal, greater_or_equal}

pub record ClaimField : Type 0 where
  pub field : Text
  pub label : Text
  pub unit : Text
  pub direction : Op
  pub min : JsNumber
  pub max : JsNumber
  pub default_value : JsNumber
  pub default_threshold : JsNumber

pub record MembershipClaimField : Type 0 where
  pub field : Text
  pub label : Text
  pub set_id : Text
  pub default_value : Text

pub data DemoClaimField : Type 0 where
  numeric : ClaimField → DemoClaimField
  membership : MembershipClaimField → DemoClaimField

pub data HeadKind : Type 0 where
  text number select : HeadKind

pub data HeadTarget : Type 0 where
  column attribute : HeadTarget

pub data HeadValue : Type 0 where
  string_value : Text → HeadValue
  number_value : JsNumber → HeadValue

pub record DemoHeadField : Type 0 where
  pub name : Text
  pub label : Text
  pub kind : HeadKind
  pub target : HeadTarget
  pub options : List Text
  pub default_value : HeadValue
  pub min : Option JsNumber
  pub max : Option JsNumber
  pub pattern : Option (Text → Bool)

pub data ProfileId : Type 0 where
  battery component : ProfileId

pub record DemoProfileSpec : Type 0 where
  pub id : ProfileId
  pub label : Text
  pub id_prefix : Text
  pub head : List DemoHeadField
  pub fixed_head : List (Text × Text)
  pub primary : Text
  pub claims : List DemoClaimField
  pub second_life : Bool

pub data DemoClaim : Type 0 where
  numeric_claim : (field : Text) (value threshold : JsNumber) → DemoClaim
  member_claim : (field member : Text) → DemoClaim

pub record ClaimSet : Type 0 where
  pub label : Text
  pub values : List Text

pub record RawEntry : Type 0 where
  pub field : Text
  pub member : Text
  pub value : JsNumber
  pub threshold : JsNumber

pub data ClaimError : Type 0 where
  not_an_array : ClaimError
  too_many : ℕ → ClaimError
  unknown_field : Text → ClaimError
  duplicate : Text → ClaimError
  not_in_list : (field member list : Text) → ClaimError
  value_range : (field : Text) (min max : JsNumber) → ClaimError
  threshold_range : (field : Text) (min max : JsNumber) → ClaimError
  not_true : (field : Text) (value : JsNumber) (direction : Op) (threshold : JsNumber) → ClaimError
  primary_required : Text → ClaimError

pub record ClaimValidation : Type 0 where
  pub ok : Bool
  pub errors : List ClaimError
  pub claims : List DemoClaim

-- [A-Za-z0-9 ._\-]
abbrev pub is_head_char : ℕ → Bool
is_head_char c = is_word c || c == 32 || c == b'.' || c == b'-'

-- /^[A-Za-z0-9 ._\-]{2,n}$/
unfoldable pub head_text_upto : ℕ → Text → Bool
head_text_upto n s = leb 2 (length s) && leb (length s) n && all is_head_char s

abbrev pub field_name : DemoClaimField → Text
field_name (numeric s) = s.field
field_name (membership s) = s.field

abbrev pub max_demo_claims : DemoProfileSpec → ℕ
max_demo_claims profile = length profile.claims

unfoldable pub claim_field_by_name : DemoProfileSpec → Text → Option DemoClaimField
unfolding text_eq
claim_field_by_name profile field = find (λ s. text_eq (field_name s) field) profile.claims

abbrev pub claim_holds : ClaimField → JsNumber → JsNumber → Bool
claim_holds spec value threshold = elim spec.direction [
  | less_or_equal ↦ num_le value threshold
  | greater_or_equal ↦ num_le threshold value
]

-- What one entry gives: an error, or a claim.
pub data Checked : Type 0 where
  bad : ClaimError → Checked
  good : DemoClaim → Checked

module _ (sets : Text → Option ClaimSet) where
  abbrev pub is_member : Option ClaimSet → Text → Bool
  is_member none member = false
  is_member (some set) member = any (text_eq member) set.values

  abbrev pub list_label : Option ClaimSet → Text → Text
  list_label none id = id
  list_label (some set) id = set.label

  unfoldable pub check_membership : MembershipClaimField → Text → Text → Checked
  check_membership spec field member =
      if is_empty member || not (is_member (sets spec.set_id) member)
      then bad (not_in_list field member (list_label (sets spec.set_id) spec.set_id))
      else good (member_claim field member)

  unfoldable pub check_numeric : ClaimField → Text → JsNumber → JsNumber → Checked
  check_numeric spec field value threshold =
      if not (is_finite value && num_le spec.min value && num_le value spec.max)
      then bad (value_range field spec.min spec.max)
      else if not
          (is_finite threshold && num_le spec.min threshold && num_le threshold (double spec.max))
      then bad (threshold_range field spec.min (double spec.max))
      else if not (claim_holds spec value threshold)
      then bad (not_true field value spec.direction threshold)
      else good (numeric_claim field value threshold)

  abbrev pub check_entry : DemoClaimField → Text → RawEntry → Checked
  check_entry (membership spec) field e = check_membership spec field (trim e.member)
  check_entry (numeric spec) field e = check_numeric spec field e.value e.threshold

  -- The state of the loop: the fields seen, the errors and the claims.
  pub record Progress : Type 0 where
    pub seen : List Text
    pub errors : List ClaimError
    pub claims : List DemoClaim

  abbrev pub add_error : ClaimError → Progress → Progress
  add_error e p = record p { errors = p.errors ++ (e ∷ []) }

  abbrev pub add_checked : Text → Checked → Progress → Progress
  add_checked field (bad e) p = record p { seen = field ∷ p.seen; errors = p.errors ++ (e ∷ []) }
  add_checked field (good c) p = record p { seen = field ∷ p.seen; claims = p.claims ++ (c ∷ []) }

  abbrev pub take_entry : Text → Option DemoClaimField → RawEntry → Progress → Progress
  take_entry field none e p = add_error (unknown_field field) p
  take_entry field (some spec) e p =
      if any (text_eq field) p.seen
      then add_error (duplicate field) p
      else add_checked field (check_entry spec field e) p

  unfoldable pub validate_loop : DemoProfileSpec → List RawEntry → Progress → Progress
  unfolding claim_field_by_name text_eq
  validate_loop profile [] p = p
  validate_loop profile (e ∷ es) p =
      validate_loop profile es
        (take_entry (trim e.field) (claim_field_by_name profile (trim e.field)) e p)

  abbrev pub require_primary : DemoProfileSpec → Progress → Progress
  require_primary profile p =
      if any (text_eq profile.primary) p.seen
      then p
      else add_error (primary_required profile.primary) p

  abbrev pub finished : List ClaimError → List DemoClaim → ClaimValidation
  finished [] claims = record { ok = true; errors = []; claims = claims }
  finished (e ∷ es) claims = record { ok = false; errors = e ∷ es; claims = [] }

  abbrev pub conclude : Progress → ClaimValidation
  conclude p = finished p.errors p.claims

  abbrev pub start : Progress
  start = record { seen = []; errors = []; claims = [] }

  unfoldable pub validate_claims : DemoProfileSpec → Option (List RawEntry) → ClaimValidation
  unfolding validate_loop text_eq
  validate_claims profile none = record { ok = false; errors = not_an_array ∷ []; claims = [] }
  validate_claims profile (some raw) =
      if ltb (max_demo_claims profile) (length raw)
      then record { ok = false; errors = too_many (max_demo_claims profile) ∷ []; claims = [] }
      else conclude (require_primary profile (validate_loop profile raw start))
