-- ===== src/PassportService/Probes.antt =====
-- Whether a proven claim is recorded on the chain: probeClaimOnChain and probeCrossRootClaim with the
-- four actions over them. The rows of a table come in the order that its query asks for; the reads of the
-- ledger, the key of a field and which parameters the plugin's model has are parameters.
pub mod Candidates
pub mod Proven
use nightpass.Base.{
  ℕ, suc, Bool, true, false, not, ◌&&◌, ◌||◌, List, [], ◌∷◌, ◌++◌, any, filter, find, take, length,
  Option, none, some, is_some, Text, codes, norm, text_eq, text_or_empty, is_empty, is_lower_hex32,
  truthy, ◌==◌, leb, ltb, or_else, if◌then◌else◌, Result, ok, err, require, ◌>>=◌, ◌>>◌,
}
use nightpass.Base.JsNumber.{JsNumber, int, num_le, natural, is_integer, round_times}
use nightpass.Base.Maps.{TextMap, lookup, insert}
use nightpass.Base.Splits.{Env, trim}
use nightpass.PassportAnchor.Network.{Config, effective_network}
use nightpass.PassportService.Networks.{foreign_of}
use nightpass.PassportService.Verify.{
  AnchoredRow, VersionRow, VerifyError, passport_id_required, source_field_required, bad_set_root,
  bad_hashes, bad_mask, bad_count, or_not_found, row_of, own_attester,
}

-- `claimArgs`: the comparison with its threshold in thousandths, or the root of the set.
pub data Claim : Type 0 where
  at_most at_least : JsNumber → Claim
  member : Text → Claim

abbrev pub num_eq : JsNumber → JsNumber → Bool
num_eq a b = num_le a b && num_le b a

abbrev pub same_claim : Claim → Claim → Bool
same_claim (at_most t) (at_most u) = num_eq t u
same_claim (at_least t) (at_least u) = num_eq t u
same_claim (member r) (member s) = text_eq r s
same_claim _ _ = false

abbrev pub claim_of : Bool → JsNumber → Claim
claim_of true threshold = at_least threshold
claim_of false threshold = at_most threshold

-- The claim of an operator and a threshold in units.
abbrev pub numeric_claim : Option Text → Option JsNumber → Claim
numeric_claim predicate threshold =
    claim_of (text_eq (text_or_empty predicate) (codes "greaterOrEqual"))
      (round_times 1000 (or_else threshold (int 0)))

-- A row of PredicateProofLog; `is_proven` if it succeeded with a true result.
pub record ProofRow : Type 0 where
  pub passport : Text
  pub source_field : Text
  pub claim : Claim
  pub is_proven : Bool
  pub payload_hash : Option Text
  pub attester_id : Option Text

pub record Candidate : Type 0 where
  pub payload_hash : Text
  pub contract_address : Text
  pub attester_id : Text

abbrev pub name_by : Option Text → Text → TextMap Text → TextMap Text
name_by none hash m = m
name_by (some attester) hash m = insert hash attester m

-- `attesterByHash.set(norm(hash), norm(attester))`, if there is an attester
abbrev pub add_attester : Option Text → Option Text → TextMap Text → TextMap Text
add_attester attester hash m = name_by (own_attester attester) (norm hash) m

unfoldable pub add_attesters : List VersionRow → TextMap Text → TextMap Text
unfolding insert norm
add_attesters [] m = m
add_attesters (v ∷ vs) m = add_attesters vs (add_attester v.attester_id v.payload_hash m)

unfoldable pub attester_by_hash : AnchoredRow → List VersionRow → TextMap Text
unfolding insert norm add_attesters
attester_by_hash row versions =
    add_attesters versions (add_attester row.attester_id row.payload_hash [])

-- `${h}|${c}|${attester}`
abbrev pub key_of : Candidate → Text
key_of c = c.payload_hash ++ (b'|' ∷ (c.contract_address ++ (b'|' ∷ c.attester_id)))

abbrev pub is_seen : Candidate → List Candidate → Bool
is_seen c cs = any (λ d. text_eq (key_of d) (key_of c)) cs

abbrev pub add_new : Candidate → List Candidate → List Candidate
add_new c cs =
    if is_empty c.payload_hash
      || is_empty c.contract_address
      || is_empty c.attester_id
      || is_seen c cs
    then cs
    else cs ++ (c ∷ [])

-- The attester is the one that is given or that of the hash.
unfoldable pub pushed : TextMap Text → Text → Text → Option Text → Candidate
unfolding lookup
pushed m h c a = record {
  payload_hash = h;
  contract_address = c;
  attester_id = or_else (truthy a) (text_or_empty (lookup h m));
}

unfoldable pub push : TextMap Text → Text → Text → Option Text → List Candidate → List Candidate
unfolding pushed text_eq
push m h c a cs = add_new (pushed m h c a) cs

-- The loops over the versions, where `h` is the hash that is stamped or none.
unfoldable pub push_versions :
    TextMap Text
    → Option Text
    → Text
    → Option Text
    → List VersionRow
    → List Candidate
    → List Candidate
unfolding push norm
push_versions m h contract a [] cs = cs
push_versions m h contract a (v ∷ vs) cs = push_versions m h contract a vs (
    push m (or_else h (norm v.payload_hash))
      (or_else (truthy (some (norm v.contract_address))) contract) a cs)

-- `norm(proofRow.payloadHash)`, if the row has one
abbrev pub stamped_hash : Option ProofRow → Option Text
stamped_hash none = none
stamped_hash (some p) = own_attester p.payload_hash

abbrev pub stamped_attester : Option ProofRow → Option Text
stamped_attester none = none
stamped_attester (some p) =
    if is_some (stamped_hash (some p)) then own_attester p.attester_id else none

unfoldable pub candidates : AnchoredRow → List VersionRow → Option ProofRow → List Candidate
unfolding attester_by_hash push push_versions norm
candidates row versions proof =
    let m = attester_by_hash row versions in
    let contract = norm row.contract_address in
    let h = stamped_hash proof in
    let a = stamped_attester proof in
    push_versions m h contract a versions (push m (or_else h (norm row.payload_hash)) contract a [])

-- The loop over the probes: the first that is verified ends it, and so does one that throws.
unfoldable pub any_verified : (Candidate → Option Bool) → List Candidate → Bool
any_verified read [] = false
any_verified read (c ∷ cs) =
    let rest = any_verified read cs in
    elim (read c) [ none ↦ false | some b ↦ if b then true else rest ]

pub record Envelope : Type 0 where
  pub row : AnchoredRow
  pub verified : Bool
  pub anchor_network : Option Text
  pub server_network : Text
  pub checked_network : Option Text

pub data CrossRoot : Type 0 where
  document_integrity document_diff : ℕ → CrossRoot

-- The records of two anchors, with the attesters that name them.
pub record RecordPair : Type 0 where
  pub contract_address : Text
  pub attester_a : Text
  pub attester_b : Text
  pub payload_hash_a : Text
  pub payload_hash_b : Text

abbrev pub versions_of : AnchoredRow → List VersionRow → List VersionRow
versions_of row versions = filter (λ v. text_eq v.passport row.id) versions

module _ (env : Env) (cfg : Config) (has_param : Text → Bool) where
  abbrev pub has_all : Option Text → Bool
  has_all none = true
  has_all (some name) = has_param name

  abbrev pub reachable : AnchoredRow → Bool
  reachable row =
      not (is_some (foreign_of env cfg row.anchor_network)) || has_param (codes "network")

  abbrev pub unread : AnchoredRow → Envelope
  unread row = record {
    row = row;
    verified = false;
    anchor_network = row.anchor_network;
    server_network = effective_network env cfg;
    checked_network = none;
  }

  abbrev pub read_as : AnchoredRow → Bool → Envelope
  read_as row verified = record (unread row) {
    verified = verified;
    checked_network =
        some (or_else (foreign_of env cfg row.anchor_network) (effective_network env cfg));
  }

  module _ (field_key : Text → Text)
      (read_claim : Candidate → Text → Claim → Option Text → Option Bool) where
    abbrev pub read_probe : AnchoredRow → Text → Claim → Candidate → Option Bool
    read_probe row field claim c =
        read_claim c (field_key field) claim (foreign_of env cfg row.anchor_network)

    unfoldable pub probe : AnchoredRow → Text → Claim → Bool → List Candidate → Envelope
    unfolding foreign_of norm effective_network any_verified
    probe row field claim is_supported probes =
        if ltb 0 (length probes)
          && not (is_empty (norm row.contract_address))
          && is_supported
          && reachable row
        then read_as row (any_verified (read_probe row field claim) probes)
        else unread row

    abbrev pub is_proof : AnchoredRow → Text → Claim → ProofRow → Bool
    is_proof row field claim p =
        text_eq p.passport row.id
        && text_eq p.source_field field
        && same_claim p.claim claim
        && p.is_proven

    unfoldable pub probe_row :
        AnchoredRow → Text → Claim → Bool → List VersionRow → List ProofRow → Envelope
    unfolding candidates probe text_eq
    probe_row row field claim is_supported versions proofs = probe row field claim is_supported (
        take 5 (candidates row (versions_of row versions) (find (is_proof row field claim) proofs)))

    unfoldable pub probe_claim :
        Option Text
        → Option Text
        → Claim
        → Option Text
        → List AnchoredRow
        → List VersionRow
        → List ProofRow
        → Result VerifyError Envelope
    unfolding trim row_of probe_row
    probe_claim asked field claim needed table versions proofs = do
      require (not (is_empty (trim (text_or_empty asked)))) passport_id_required
      require (is_some (truthy field)) source_field_required
      row ← or_not_found (row_of (trim (text_or_empty asked)) table)
      ok (probe_row row (text_or_empty field) claim (has_all needed) versions proofs)

    unfoldable pub verify_claim_on_chain :
        Option Text
        → Option Text
        → Option Text
        → Option JsNumber
        → List AnchoredRow
        → List VersionRow
        → List ProofRow
        → Result VerifyError (Envelope × Claim)
    unfolding probe_claim text_eq
    verify_claim_on_chain asked field predicate threshold table versions proofs = do
      let claim = numeric_claim predicate threshold
      found ← probe_claim asked field claim none table versions proofs
      ok (found, claim)

    unfoldable pub verify_membership_claim_on_chain :
        Option Text
        → Option Text
        → Option Text
        → List AnchoredRow
        → List VersionRow
        → List ProofRow
        → Result VerifyError (Envelope × Claim)
    unfolding probe_claim is_lower_hex32 norm
    verify_membership_claim_on_chain asked field root table versions proofs = do
      require (is_lower_hex32 (norm root)) bad_set_root
      found ←
          probe_claim asked field (member (norm root)) (some (codes "setRoot")) table versions
            proofs
      ok (found, member (norm root))
