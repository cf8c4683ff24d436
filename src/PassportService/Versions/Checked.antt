-- ===== src/PassportService/Versions/Checked.antt =====
-- What a superseded anchor that is reported as verified stands on.
use nightpass.Base.{◌≡◌, Bool, true, List, Option, some, norm, Text, or_else, Among}
use nightpass.Base.JsNumber.{JsNumber}
use nightpass.Base.Splits.{Env}
use nightpass.PassportAnchor.Network.{Config, or_default, effective_network}
use nightpass.PassportService.Networks.{network_of}
use nightpass.PassportService.Verify.{AnchoredRow, VersionRow, StateAnswer, Check}
use nightpass.PassportService.Versions.{VersionCheck}
use nightpass.StateVerify.{RecordSelector, SelectorArgs}
use nightpass.StateVerify.Selectors.{Named}

module _ (env : Env) (cfg : Config) (blake2b : Text → Text) (can_override : Bool)
    (read_state : SelectorArgs → Option Text → Option StateAnswer) where
  -- The contract, the payload's hash and the attester are the version's, the document is the passport's.
  abbrev pub record_of : AnchoredRow → VersionRow → RecordSelector
  record_of row v = record {
    contract_address = some (norm v.contract_address);
    payload_hash = some (norm v.payload_hash);
    attester_id = v.attester_id;
    document_id = some (or_default row.passport_id_hash (blake2b row.passport_id));
  }

  -- The read of a record that is named by these says so, on the version's own network.
  abbrev pub VersionSaysSo : AnchoredRow → VersionRow → Check → Type 0
  VersionSaysSo row v c =
      (sel : SelectorArgs) × (network : Option Text) × (a : StateAnswer) × Named (record_of row v)
        sel
      × (read_state sel network ≡ some a)
      × (a.verified ≡ true)
      × (or_else network (effective_network env cfg) ≡ network_of env cfg v.anchor_network)
      × (c.checked_network ≡ some (network_of env cfg v.anchor_network))

  abbrev Stands : List VersionRow → VersionCheck → Type 0
  Stands versions c =
      Among c.of versions
      × (c.of.passport ≡ c.row.id)
      × (c.check.verified ≡ true → VersionSaysSo c.row c.of c.check)
