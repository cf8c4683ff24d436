-- ===== src/PassportService/CrossRoots.antt =====
-- probeCrossRootClaim with its two actions: whether two anchors of a passport are proven to agree outside
-- a mask, or to differ in so many slots. The read takes both attesters, also where they are one.
pub mod Proven
use nightpass.Base.{
  ℕ, Bool, true, false, not, ◌&&◌, ◌||◌, List, [], ◌∷◌, Option, none, some, is_some, Text, codes,
  norm, text_or_empty, is_empty, is_lower_hex32, truthy, leb, ltb, or_else, if◌then◌else◌, Result,
  ok, err, require, ◌>>=◌, ◌>>◌,
}
use nightpass.Base.JsNumber.{JsNumber, int, natural}
use nightpass.Base.Maps.{lookup}
use nightpass.Base.Splits.{Env, trim}
use nightpass.PassportAnchor.Network.{Config, effective_network}
use nightpass.PassportService.Networks.{foreign_of}
use nightpass.PassportService.Verify.{
  AnchoredRow, VersionRow, VerifyError, passport_id_required, bad_hashes, bad_mask, bad_count,
  or_not_found, row_of,
}
use nightpass.PassportService.Probes.{
  Envelope, CrossRoot, document_integrity, document_diff, RecordPair, versions_of, attester_by_hash,
  reachable, unread, read_as,
}

abbrev pub kind_param : CrossRoot → Text
kind_param (document_integrity mask) = codes "allowedMask"
kind_param (document_diff k) = codes "k"

-- The records of two hashes, if both have an attester and the row a contract.
abbrev pub pair_of : Text → Text → Text → Option Text → Option Text → Option RecordPair
pair_of contract hash_a hash_b (some a) (some b) =
    if is_empty contract
    then none
    else some (record {
      contract_address = contract;
      attester_a = a;
      attester_b = b;
      payload_hash_a = hash_a;
      payload_hash_b = hash_b;
    })
pair_of contract hash_a hash_b _ _ = none

abbrev pub is_verified : Option Bool → Bool
is_verified none = false
is_verified (some b) = b

module _ (env : Env) (cfg : Config) (has_param : Text → Bool)
    (read_pair : RecordPair → CrossRoot → Option Text → Option Bool) where
  abbrev pub pair_in : AnchoredRow → List VersionRow → Text → Text → Option RecordPair
  pair_in row versions hash_a hash_b =
      let m = attester_by_hash row (versions_of row versions) in
      pair_of (norm row.contract_address) hash_a hash_b (truthy (lookup hash_a m))
        (truthy (lookup hash_b m))

  abbrev pub supported : CrossRoot → AnchoredRow → Bool
  supported kind row =
      has_param (codes "payloadHashB")
      && has_param (kind_param kind)
      && reachable env cfg has_param row

  abbrev pub checked_pair : Option RecordPair → CrossRoot → AnchoredRow → Envelope
  checked_pair none kind row = unread env cfg has_param row
  checked_pair (some pair) kind row =
      if supported kind row
      then read_as env cfg has_param row
          (is_verified (read_pair pair kind (foreign_of env cfg row.anchor_network)))
      else unread env cfg has_param row

  unfoldable pub check_pair : AnchoredRow → List VersionRow → Text → Text → CrossRoot → Envelope
  unfolding foreign_of norm effective_network attester_by_hash lookup
  check_pair row versions hash_a hash_b kind =
      checked_pair (pair_in row versions hash_a hash_b) kind row

  unfoldable pub probe_cross_root :
      Option Text
      → Option Text
      → Option Text
      → CrossRoot
      → List AnchoredRow
      → List VersionRow
      → Result VerifyError Envelope
  unfolding trim row_of check_pair is_lower_hex32 norm
  probe_cross_root asked hash_a hash_b kind table versions = do
    require (not (is_empty (trim (text_or_empty asked)))) passport_id_required
    require (is_lower_hex32 (norm hash_a) && is_lower_hex32 (norm hash_b)) bad_hashes
    row ← or_not_found (row_of (trim (text_or_empty asked)) table)
    ok (check_pair row versions (norm hash_a) (norm hash_b) kind)

  abbrev pub within : ℕ → ℕ → Option ℕ → Option ℕ
  within low high none = none
  within low high (some n) = if leb low n && leb n high then some n else none

  abbrev pub or_out : VerifyError → Option ℕ → Result VerifyError ℕ
  or_out e none = err e
  or_out e (some n) = ok n

  unfoldable pub verify_version_integrity_on_chain :
      Option Text
      → Option Text
      → Option Text
      → Option JsNumber
      → List AnchoredRow
      → List VersionRow
      → Result VerifyError (Envelope × ℕ)
  unfolding probe_cross_root
  verify_version_integrity_on_chain asked hash_a hash_b mask table versions = do
    bound ← or_out bad_mask (within 0 65535 (natural (or_else mask (int 0))))
    found ← probe_cross_root asked hash_a hash_b (document_integrity bound) table versions
    ok (found, bound)

  unfoldable pub verify_version_change_on_chain :
      Option Text
      → Option Text
      → Option Text
      → Option JsNumber
      → List AnchoredRow
      → List VersionRow
      → Result VerifyError (Envelope × ℕ)
  unfolding probe_cross_root
  verify_version_change_on_chain asked hash_a hash_b count table versions = do
    bound ← or_out bad_count (within 1 16 (natural (or_else count (int 0))))
    found ← probe_cross_root asked hash_a hash_b (document_diff bound) table versions
    ok (found, bound)
