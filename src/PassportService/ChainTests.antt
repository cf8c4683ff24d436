-- ===== src/PassportService/ChainTests.antt =====
-- The checks on the chain at concrete inputs: a passport that was anchored anew, and whose claims were
-- proven on the vault before.
use nightpass.Base.{
  ◌≡◌, refl, Bool, true, false, [], ◌∷◌, ◌++◌, Option, none, some, Text, codes, norm, text_eq,
  lower, strip_0x, is_lower_hex32, ok, err,
}
use nightpass.Base.JsNumber.{int, plus}
use nightpass.Base.Splits.{variable}
use nightpass.PassportAnchor.Network.{Config}
use nightpass.StateVerify.{SelectorArgs}
use nightpass.PassportService.Verify.{
  AnchoredRow, VersionRow, StateAnswer, version_not_found, bad_mask,
}
use nightpass.PassportService.Versions.{
  VersionCheck, verify_anchor_version, ResolvedHash, resolve_by_hash,
}
use nightpass.PassportService.Versions.Resolving.{Answers, resolve_by_hash-Resolves}
use nightpass.PassportService.Probes.{
  Claim, at_most, ProofRow, Candidate, candidates, Envelope, RecordPair, CrossRoot,
  document_integrity, numeric_claim, probe_claim,
}
use nightpass.PassportService.Probes.Proven.{IsProven, probe_claim-verified}
use nightpass.PassportService.CrossRoots.{probe_cross_root, verify_version_integrity_on_chain}
use nightpass.PassportService.CrossRoots.Proven.{IsProven as AreProven, probe_cross_root-verified}

abbrev hex32 : Text → Text
hex32 digit = digit ++ (digit ++ (digit ++ (digit ++ (digit ++ (digit ++ (digit ++ digit))))))

abbrev hash_a : Text
hash_a = hex32 (codes "aaaaaaaa")

abbrev hash_b : Text
hash_b = hex32 (codes "bbbbbbbb")

abbrev attester : Text
attester = hex32 (codes "11111111")

abbrev row : AnchoredRow
row = record {
  id = codes "1";
  passport_id = codes "p";
  payload_hash = some hash_b;
  contract_address = some (codes "new");
  anchor_network = none;
  attestation_tx_hash = some (codes "t2");
  status = some (codes "anchored");
  attester_id = some attester;
  passport_id_hash = none;
}

abbrev old : VersionRow
old = record {
  passport = codes "1";
  version = 1;
  payload_hash = some hash_a;
  contract_address = some (codes "old");
  anchor_network = none;
  attestation_tx_hash = some (codes "t1");
  attester_id = some attester;
}

abbrev env : Text → Option Text
env name = none

abbrev cfg : Config
cfg = record {
  network = some (codes "preprod");
  crawler_enabled = none;
  crawlerless_chain_confirm = none;
}

-- The ledger knows every record that is named by an attester.
abbrev read_state : SelectorArgs → Option Text → Option StateAnswer
read_state sel network =
    some (record { verified = true; attester_id = none; binding_registered = none })

abbrev checked : VersionCheck
checked = record {
  row = row;
  of = old;
  check = record {
    verified = true;
    checked_network = some (codes "preprod");
    attester_id = none;
    binding_registered = none;
  };
  payload_hash = some hash_a;
  contract_address = some (codes "old");
  server_network = codes "preprod";
  explorer_url = some (codes "https://preprod.midnightexplorer.com/transactions/0xt1");
}

no_version :
    verify_anchor_version env cfg
      (λ d. d)
      false
      read_state
      (some (codes "p"))
      (some (int 2))
      (row ∷ [])
      (old ∷ [])
    ≡ err version_not_found
unfolding verify_anchor_version
no_version = refl

abbrev superseded_one : ResolvedHash
superseded_one = record {
  row = record row { attestation_tx_hash = some (codes "t1") };
  payload_hash = hash_a;
  locally_anchored = true;
  viewer_url = codes "https://passport.example/resolve/" ++ hash_a;
  version = some 1;
}

resolved_old :
    resolve_by_hash env (some (codes "0x" ++ hash_a)) (row ∷ []) (old ∷ []) ≡ ok superseded_one
unfolding resolve_by_hash lower strip_0x
resolved_old = refl

resolve_by_hash-Resolves_example :
    Answers env (row ∷ []) (old ∷ []) (some (codes "0x" ++ hash_a)) superseded_one
resolve_by_hash-Resolves_example =
    resolve_by_hash-Resolves env (row ∷ []) (old ∷ []) (some (codes "0x" ++ hash_a)) superseded_one
      resolved_old

-- The proof was stamped with the hash of the version before, on whose contract the claim is recorded.
abbrev proof : ProofRow
proof = record {
  passport = codes "1";
  source_field = codes "carbon";
  claim = at_most (int 12500);
  is_proven = true;
  payload_hash = some hash_a;
  attester_id = none;
}

abbrev read_claim : Candidate → Text → Claim → Option Text → Option Bool
read_claim c field claim network = some (text_eq c.contract_address (codes "old"))

-- 12.5 is 12500 thousandths.
scaled : numeric_claim none (some (plus 25 1)) ≡ at_most (int 12500)
unfolding text_eq
scaled = refl

probed :
    candidates row (old ∷ []) (some proof)
    ≡ record { payload_hash = hash_a; contract_address = codes "new"; attester_id = attester }
      ∷ record { payload_hash = hash_a; contract_address = codes "old"; attester_id = attester }
      ∷ []
unfolding candidates lower strip_0x
probed = refl

abbrev recorded : Envelope
recorded = record {
  row = row;
  verified = true;
  anchor_network = none;
  server_network = codes "preprod";
  checked_network = some (codes "preprod");
}

claimed :
    probe_claim env cfg
      (λ name. true)
      (λ f. f)
      read_claim
      (some (codes "p"))
      (some (codes "carbon"))
      (at_most (int 12500))
      none
      (row ∷ [])
      (old ∷ [])
      (proof ∷ [])
    ≡ ok recorded
unfolding probe_claim lower variable strip_0x
claimed = refl

probe_claim-verified_example :
    IsProven env cfg
      (λ name. true)
      (λ f. f)
      read_claim
      (codes "carbon")
      (at_most (int 12500))
      (old ∷ [])
      (proof ∷ [])
      recorded
probe_claim-verified_example =
    probe_claim-verified env cfg (λ name. true) (λ f. f) read_claim (some (codes "p"))
      (some (codes "carbon")) (at_most (int 12500)) none (row ∷ []) (old ∷ []) (proof ∷ []) recorded
      claimed refl

abbrev read_pair : RecordPair → CrossRoot → Option Text → Option Bool
read_pair pair kind network = some (text_eq pair.attester_a attester)

related :
    probe_cross_root env cfg
      (λ name. true)
      read_pair
      (some (codes "p"))
      (some hash_a)
      (some hash_b)
      (document_integrity 3)
      (row ∷ [])
      (old ∷ [])
    ≡ ok recorded
unfolding probe_cross_root lower variable strip_0x
related = refl

probe_cross_root-verified_example :
    (is_lower_hex32 (norm (some hash_a)) ≡ true)
    × (is_lower_hex32 (norm (some hash_b)) ≡ true)
    × AreProven env cfg
        (λ name. true)
        read_pair
        (norm (some hash_a))
        (norm (some hash_b))
        (document_integrity 3)
        (old ∷ [])
        recorded
probe_cross_root-verified_example =
    probe_cross_root-verified env cfg (λ name. true) read_pair (some (codes "p")) (some hash_a)
      (some hash_b) (document_integrity 3) (row ∷ []) (old ∷ []) recorded related refl

too_wide :
    verify_version_integrity_on_chain env cfg
      (λ name. true)
      read_pair
      (some (codes "p"))
      (some hash_a)
      (some hash_b)
      (some (int 65536))
      (row ∷ [])
      (old ∷ [])
    ≡ err bad_mask
unfolding verify_version_integrity_on_chain
too_wide = refl
