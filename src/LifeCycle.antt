-- ===== src/LifeCycle.antt =====
-- srv/lib/dpp-api.ts: the state of the life cycle API, its callers and what they may see. The SDK's
-- document store, its operations on documents and its tokens, the passports' table and the network are
-- parameters; a document is of any type.
pub mod Handlers
pub mod Adapter
pub mod Lookups
pub mod Access
pub mod Views
pub mod Endpoints
mod Tests
use nightpass.Base.{
  ℕ, suc, Bool, true, false, not, ◌&&◌, ◌||◌, List, [], ◌∷◌, ◌++◌, find, any, Option, none, some,
  is_some, Text, codes, text_eq, text_or_empty, is_empty, lower, length, if◌then◌else◌, Result, ok,
  err,
}
use nightpass.Base.Maps.{TextMap, lookup, insert}
use nightpass.Base.Patterns.{after_prefix, is_space, skip_spaces}
use nightpass.Base.Splits.{Env, trim}

pub data DppRole : Type 0 where
  public legitimate_interest authority commission : DppRole

-- A version of a document, as far as it is read.
pub record DppVersion (D : Type 0) : Type 0 where
  pub dpp_id : Text
  pub product_id : Text
  pub document : D

-- The SDK's document store.
pub record StoreOps (S D : Type 0) : Type 0 where
  pub insert_new : Option Text → Option Text → Option Text → D → S → DppVersion D × S
  pub current : Text → S → Option (DppVersion D)
  pub update : Text → D → S → Option (DppVersion D) × S
  pub remove_dpp : Text → S → Option (DppVersion D) × S
  pub activate_by_product : Text → S → Option (DppVersion D) × S
  pub active_by_product : Text → S → Option (DppVersion D)
  pub by_product_and_date : Text → Text → S → Option (DppVersion D)
  pub clear : S → S

-- The SDK's operations on documents of the battery profile; `is_object` is `x && typeof x === 'object'`,
-- and `wrap` makes the object with one property.
pub record DocOps (D : Type 0) : Type 0 where
  pub is_object : D → Bool
  pub filter_document : ℕ → D → D
  pub merge_patch : D → D → D
  pub split_path : Text → List Text
  pub get_element : D → List Text → Option D
  pub patch_element : D → List Text → D → D
  pub touch_last_update : D → D
  pub operator_id : D → Option Text
  pub wrap : Text → D → D
  pub role_level : DppRole → ℕ

pub record ExternalService : Type 0 where
  pub service_type : Text
  pub service_url : Text

-- A call of an external service.
pub data ServiceCall (D : Type 0) : Type 0 where
  post_dpp : ExternalService → D → ServiceCall D
  patch_dpp : ExternalService → (id : Text) → D → ServiceCall D
  register_dpp : ExternalService → (product backup operator : Text) → ServiceCall D

-- What is mirrored to the table: a version that is added, or one that replaces all of its document.
pub data Mirrored (D : Type 0) : Type 0 where
  version_row : DppVersion D → Mirrored D
  replacing : DppVersion D → Mirrored D

-- `calls` and `mirror` are the calls and the writes so far.
pub record Api (S D : Type 0) : Type 0 where
  pub store : S
  pub tokens : TextMap Text
  pub backup_ids : TextMap Text
  pub external_services : List ExternalService
  pub calls : List (ServiceCall D)
  pub mirror : List (Mirrored D)

-- A passport that is anchored, rendered as a document.
pub record RealPassport (D : Type 0) : Type 0 where
  pub passport_id : Text
  pub document : D
  pub created_at : Option Text

-- A request's two headers, "" if absent.
pub record Headers : Type 0 where
  pub authorization : Text
  pub api_key : Text

-- What `roleOf` gives: `role: null`, a role, or `invalid: true`.
pub data Caller : Type 0 where
  operator : Caller
  reader : DppRole → Caller
  unknown : Caller

-- `!!process.env.PASSPORT_PUBLIC_SURFACE?.trim()`
unfoldable pub is_public_host : Env → Bool
unfolding trim
is_public_host env = not (is_empty (trim (text_or_empty (env (codes "PASSPORT_PUBLIC_SURFACE")))))

-- The text behind one space at least, `\s+`.
abbrev pub after_spaces : Text → Option Text
after_spaces [] = none
after_spaces (c ∷ s) = if is_space c then some (skip_spaces s) else none

-- The text behind a prefix of letters in any case.
unfoldable pub after_word : Text → Text → Option Text
after_word [] s = some s
after_word (c ∷ p) [] = none
after_word (c ∷ p) (d ∷ s) =
    if text_eq (lower (c ∷ [])) (lower (d ∷ [])) then after_word p s else none

abbrev pub spaces_after : Option Text → Option Text
spaces_after none = none
spaces_after (some s) = after_spaces s

-- `header.replace(/^(Bearer|ApiKey)\s+/i, '')`
abbrev pub or_text : Option Text → Text → Text
or_text none s = s
or_text (some t) s = t

unfoldable pub without_scheme : Text → Text
unfolding after_word skip_spaces
without_scheme header =
    or_text (spaces_after (after_word (codes "Bearer") header))
      (or_text (spaces_after (after_word (codes "ApiKey") header)) header)

unfoldable pub credential : Headers → Text
unfolding without_scheme trim
credential h =
    let bearer = trim (without_scheme h.authorization) in
    if is_empty bearer then trim h.api_key else bearer

unfoldable pub read_role : Text → Option DppRole
unfolding text_eq
read_role name =
    if text_eq name (codes "public")
    then some public
    else if text_eq name (codes "legitimate_interest")
    then some legitimate_interest
    else if text_eq name (codes "authority")
    then some authority
    else if text_eq name (codes "commission")
    then some commission
    else none

abbrev pub is_operator : Text → Bool
is_operator name = text_eq name (codes "economic_operator")

abbrev pub reader_or_unknown : Option DppRole → Caller
reader_or_unknown none = unknown
reader_or_unknown (some r) = reader r

abbrev pub caller_of : Option Text → Caller
caller_of none = unknown
caller_of (some name) = if is_operator name then operator else reader_or_unknown (read_role name)

-- `tokens.get(raw) ?? roleFromSignedToken(raw)`
abbrev pub or_signed : Option Text → Option Text → Option Text
or_signed none signed = signed
or_signed (some role) signed = some role

-- `signed` is roleFromSignedToken.
unfoldable pub role_of : Bool → (Text → Option Text) → TextMap Text → Headers → Caller
unfolding credential read_role lookup text_eq
role_of public_host signed tokens h =
    let raw = credential h in
    if is_empty raw
    then (if public_host then unknown else operator)
    else caller_of (or_signed (lookup raw tokens) (signed raw))

-- `view`
unfoldable pub view : {D : Type 0} → DocOps D → Caller → D → D
view docs (reader role) doc = docs.filter_document (docs.role_level role) doc
view docs operator doc = doc
view docs unknown doc = doc
