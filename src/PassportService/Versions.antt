-- ===== src/PassportService/Versions.antt =====
-- verifyAnchorVersion and resolveByHash: the anchors of a passport that were superseded. Columns that
-- are only passed on are left out.
pub mod Resolving
pub mod Checked
use nightpass.Base.{
  ℕ, Bool, true, false, not, ◌&&◌, ◌||◌, List, [], ◌∷◌, ◌++◌, find, Option, none, some, is_some,
  Text, codes, norm, text_eq, text_or_empty, is_empty, is_lower_hex32, truthy, ◌==◌, or_else,
  if◌then◌else◌, Result, ok, err, require, ◌>>=◌, ◌>>◌,
}
use nightpass.Base.JsNumber.{JsNumber, is_integer, natural}
use nightpass.Base.Splits.{Env, trim}
use nightpass.PassportAnchor.Network.{Config, or_default, effective_network, explorer_tx_url}
use nightpass.PassportService.Networks.{foreign_of}
use nightpass.PassportService.Verify.{
  AnchoredRow, VersionRow, StateAnswer, Check, VerifyError, version_required, version_not_found,
  bad_hash, unknown_hash, passport_id_required, or_not_found, row_of, unchecked, after_read,
}
use nightpass.StateVerify.{RecordSelector, SelectorArgs, record_selector_args}

abbrev pub or_error : {A : Type 0} → VerifyError → Option A → Result VerifyError A
or_error e none = err e
or_error e (some a) = ok a

-- `version == null || !Number.isInteger(Number(version))`
abbrev pub version_ok : Option JsNumber → Bool
version_ok none = false
version_ok (some n) = is_integer n

abbrev pub is_number : Option ℕ → ℕ → Bool
is_number none k = false
is_number (some m) k = m == k

abbrev pub is_version : Text → Option JsNumber → VersionRow → Bool
is_version passport none v = false
is_version passport (some n) v = text_eq v.passport passport && is_number (natural n) v.version

pub record VersionCheck : Type 0 where
  pub row : AnchoredRow
  pub of : VersionRow
  pub check : Check
  pub payload_hash : Option Text
  pub contract_address : Option Text
  pub server_network : Text
  pub explorer_url : Option Text

module _ (env : Env) (cfg : Config) (blake2b : Text → Text) (can_override : Bool)
    (read_state : SelectorArgs → Option Text → Option StateAnswer) where
  abbrev pub version_selector : AnchoredRow → VersionRow → Option SelectorArgs
  version_selector row v = record_selector_args (record {
    contract_address = some (norm v.contract_address);
    payload_hash = some (norm v.payload_hash);
    attester_id = v.attester_id;
    document_id = some (or_default row.passport_id_hash (blake2b row.passport_id));
  })

  -- The read, without the answer's attester and binding.
  abbrev pub version_read : Option Text → SelectorArgs → Check
  version_read foreign sel =
      let c =
        after_read (or_else foreign (effective_network env cfg)) none (read_state sel foreign) in
      record (unchecked none) { verified = c.verified; checked_network = c.checked_network }

  abbrev pub version_checked : Option SelectorArgs → Option Text → Check
  version_checked none foreign = unchecked none
  version_checked (some sel) foreign =
      if not (is_some foreign) || can_override then version_read foreign sel else unchecked none

  unfoldable pub check_version : AnchoredRow → VersionRow → Check
  unfolding foreign_of record_selector_args norm
  check_version row v =
      version_checked (version_selector row v) (foreign_of env cfg v.anchor_network)

  unfoldable pub version_check_of : AnchoredRow → VersionRow → VersionCheck
  unfolding norm effective_network explorer_tx_url check_version
  version_check_of row v = record {
    row = row;
    of = v;
    check = check_version row v;
    payload_hash = truthy (some (norm v.payload_hash));
    contract_address = truthy (some (norm v.contract_address));
    server_network = effective_network env cfg;
    explorer_url = explorer_tx_url env cfg v.attestation_tx_hash v.anchor_network;
  }

  unfoldable pub verify_anchor_version :
      Option Text
      → Option JsNumber
      → List AnchoredRow
      → List VersionRow
      → Result VerifyError VersionCheck
  unfolding trim row_of version_check_of text_eq
  verify_anchor_version asked version table versions = do
    require (not (is_empty (trim (text_or_empty asked)))) passport_id_required
    require (version_ok version) version_required
    row ← or_not_found (row_of (trim (text_or_empty asked)) table)
    v ← or_error version_not_found (find (is_version row.id version) versions)
    ok (version_check_of row v)

-- `where({ payloadHash: raw })`
abbrev pub has_hash : Text → Option Text → Bool
has_hash raw none = false
has_hash raw (some h) = text_eq h raw

-- What is answered of a hash; `version` is none for the current anchor.
pub record ResolvedHash : Type 0 where
  pub row : AnchoredRow
  pub payload_hash : Text
  pub locally_anchored : Bool
  pub viewer_url : Text
  pub version : Option ℕ

abbrev pub is_status : Text → Option Text → Bool
is_status status none = false
is_status status (some s) = text_eq s status

abbrev pub resolved_hash : Env → Text → AnchoredRow → Option ℕ → ResolvedHash
resolved_hash env raw row version = record {
  row = row;
  payload_hash = raw;
  locally_anchored =
      is_status (codes "anchored") row.status && is_some (truthy row.attestation_tx_hash);
  viewer_url =
      or_else (env (codes "PASSPORT_DEMO_HOST")) (codes "https://passport.example")
      ++ (codes "/resolve/" ++ raw);
  version = version;
}

abbrev pub with_version : VersionRow → Option AnchoredRow → Option (AnchoredRow × Option ℕ)
with_version v none = none
with_version v (some r) =
    some (record r { attestation_tx_hash = v.attestation_tx_hash }, some v.version)

-- The passport of a version, with the transaction of the version.
abbrev pub superseded : List AnchoredRow → VersionRow → Option (AnchoredRow × Option ℕ)
superseded table v =
    if is_empty v.passport then none else with_version v (find (λ r. text_eq r.id v.passport) table)

abbrev pub of_version : List AnchoredRow → Option VersionRow → Option (AnchoredRow × Option ℕ)
of_version table none = none
of_version table (some v) = superseded table v

-- The current anchor with the hash, or else the version with it.
abbrev pub current_or :
    Option AnchoredRow → Option (AnchoredRow × Option ℕ) → Option (AnchoredRow × Option ℕ)
current_or none later = later
current_or (some r) later = some (r, none)

unfoldable pub resolve_by_hash :
    Env → Option Text → List AnchoredRow → List VersionRow → Result VerifyError ResolvedHash
unfolding norm is_lower_hex32 text_eq
resolve_by_hash env asked table versions = do
  require (is_lower_hex32 (norm asked)) bad_hash
  found ← or_error unknown_hash (
      current_or (find (λ r. has_hash (norm asked) r.payload_hash) table)
        (of_version table (find (λ v. has_hash (norm asked) v.payload_hash) versions)))
  ok (resolved_hash env (norm asked) found.0 found.1)
