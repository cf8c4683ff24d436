-- ===== src/PassportService/Verify.antt =====
-- verifyOnChain. The read of the ledger's state, a peer and the
-- digest of a passport id are parameters; `none` is a read that throws. The time of the check, and what a
-- peer's address is made of, are left out.
pub mod Checked
use nightpass.Base.{
  ℕ, Bool, true, false, not, ◌&&◌, ◌||◌, List, [], ◌∷◌, ◌++◌, find, Option, none, some, is_some,
  Text, codes, norm, text_eq, text_or_empty, is_empty, is_hex32, truthy, ◌==◌, or_else,
  if◌then◌else◌, Result, ok, err, require, ◌>>=◌, ◌>>◌,
}
use nightpass.Base.Maps.{TextMap, lookup}
use nightpass.Base.Splits.{Env, trim}
use nightpass.PassportAnchor.Network.{
  Config, or_default, effective_network, explorer_tx_url, verify_peers,
}
use nightpass.PassportService.Networks.{foreign_of}
use nightpass.StateVerify.{RecordSelector, SelectorArgs, record_selector_args}

-- The columns of a passport that are read.
pub record AnchoredRow : Type 0 where
  pub id : Text
  pub passport_id : Text
  pub payload_hash : Option Text
  pub contract_address : Option Text
  pub anchor_network : Option Text
  pub attestation_tx_hash : Option Text
  pub status : Option Text
  pub attester_id : Option Text
  pub passport_id_hash : Option Text

-- A row of PassportAnchorVersions: an anchor that was superseded, of the passport with the id.
pub record VersionRow : Type 0 where
  pub passport : Text
  pub version : ℕ
  pub payload_hash : Option Text
  pub contract_address : Option Text
  pub anchor_network : Option Text
  pub attestation_tx_hash : Option Text
  pub attester_id : Option Text

-- An answer of verifyAttestationState, as far as its fields have the types that are asked for.
pub record StateAnswer : Type 0 where
  pub verified : Bool
  pub attester_id : Option Text
  pub binding_registered : Option Bool

pub record PeerAnswer : Type 0 where
  pub verified : Bool
  pub checked_network : Option Text

pub record Check : Type 0 where
  pub verified : Bool
  pub checked_network : Option Text
  pub attester_id : Option Text
  pub binding_registered : Option Bool

pub data VerifyError : Type 0 where
  passport_id_required not_found version_required version_not_found bad_hash unknown_hash :
      VerifyError
  source_field_required bad_set_root bad_hashes bad_mask bad_count : VerifyError

abbrev pub or_not_found : {A : Type 0} → Option A → Result VerifyError A
or_not_found none = err not_found
or_not_found (some a) = ok a

unfoldable pub row_of : Text → List AnchoredRow → Option AnchoredRow
unfolding text_eq
row_of passport_id table = find (λ r. text_eq r.passport_id passport_id) table

-- `row.attesterId ? norm(row.attesterId) : null`
abbrev pub own_attester : Option Text → Option Text
own_attester o = elim (truthy o) [ none ↦ none | some id ↦ some (norm (some id)) ]

abbrev pub answered_attester : Option Text → Option Text → Option Text
answered_attester none before = before
answered_attester (some id) before = if is_hex32 id then some (norm (some id)) else before

abbrev pub unchecked : Option Text → Check
unchecked attester = record {
  verified = false;
  checked_network = none;
  attester_id = attester;
  binding_registered = none;
}

-- The read on a network, which leaves the passport unverified where it throws.
abbrev pub after_read : Text → Option Text → Option StateAnswer → Check
after_read network attester none = record (unchecked attester) { checked_network = some network }
after_read network attester (some a) = record {
  verified = a.verified;
  checked_network = some network;
  attester_id = answered_attester a.attester_id attester;
  binding_registered = a.binding_registered;
}

-- The peer's answer; any failure leaves the read as not performed.
abbrev pub after_peer : Text → Option Text → Option PeerAnswer → Check
after_peer network attester none = unchecked attester
after_peer network attester (some b) = record (unchecked attester) {
  verified = b.verified;
  checked_network = some (or_else b.checked_network network);
}

-- What is answered of a row that was looked at.
pub record Verification : Type 0 where
  pub row : AnchoredRow
  pub check : Check
  pub payload_hash : Option Text
  pub contract_address : Option Text
  pub server_network : Text
  pub explorer_url : Option Text

module _ (env : Env) (cfg : Config) (blake2b : Text → Text) (can_override : Bool)
    (read_state : SelectorArgs → Option Text → Option StateAnswer)
    (ask_peer : Text → Text → Option PeerAnswer) where
  abbrev pub selector_of : AnchoredRow → Option SelectorArgs
  selector_of row = record_selector_args (record {
    contract_address = some (norm row.contract_address);
    payload_hash = some (norm row.payload_hash);
    attester_id = row.attester_id;
    document_id = some (or_default row.passport_id_hash (blake2b row.passport_id));
  })

  abbrev pub read_on : Option Text → SelectorArgs → Option Text → Check
  read_on none sel attester = after_read (effective_network env cfg) attester (read_state sel none)
  read_on (some n) sel attester = after_read n attester (read_state sel (some n))

  -- A peer is asked where the row has a payload and a contract, and its network a peer.
  unfoldable pub through_peer : AnchoredRow → Option Text → Option Text → Check
  unfolding lookup verify_peers norm
  through_peer row none attester = unchecked attester
  through_peer row (some n) attester = elim (truthy (lookup n (verify_peers env))) [
    | none ↦ unchecked attester
    | some base ↦
        if is_empty (norm row.payload_hash) || is_empty (norm row.contract_address)
        then unchecked attester
        else after_peer n attester (ask_peer base row.passport_id)
  ]

  abbrev pub may_read : Option Text → Bool
  may_read foreign = not (is_some foreign) || can_override

  abbrev pub checked_by : Option SelectorArgs → Option Text → AnchoredRow → Option Text → Check
  checked_by none foreign row attester = through_peer row foreign attester
  checked_by (some sel) foreign row attester =
      if may_read foreign then read_on foreign sel attester else through_peer row foreign attester

  unfoldable pub check_row : AnchoredRow → Check
  unfolding foreign_of through_peer record_selector_args norm
  check_row row =
      checked_by (selector_of row) (foreign_of env cfg row.anchor_network) row
        (own_attester row.attester_id)

  unfoldable pub verification_of : AnchoredRow → Check → Verification
  unfolding norm effective_network explorer_tx_url
  verification_of row check = record {
    row = row;
    check = check;
    payload_hash = truthy (some (norm row.payload_hash));
    contract_address = truthy (some (norm row.contract_address));
    server_network = effective_network env cfg;
    explorer_url = explorer_tx_url env cfg row.attestation_tx_hash row.anchor_network;
  }

  unfoldable pub verify_on_chain : Option Text → List AnchoredRow → Result VerifyError Verification
  unfolding trim row_of check_row verification_of
  verify_on_chain asked table = do
    require (not (is_empty (trim (text_or_empty asked)))) passport_id_required
    row ← or_not_found (row_of (trim (text_or_empty asked)) table)
    ok (verification_of row (check_row row))
