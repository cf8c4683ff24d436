-- ===== src/ChainVerify/Tests.antt =====
-- Verdicts at a concrete indexer, and the theorems at it.
use nightpass.Base.{
  ◌≡◌, ◌↔◌, refl, [], ◌∷◌, Option, none, some, Text, codes, text_eq, norm, lower, strip_0x,
  if◌then◌else◌,
}
use nightpass.ChainVerify.{
  confirmed, failed, unknown, ChainCheckOpts, TxRow, Indexer, touches, verify_contract_tx,
}
use nightpass.ChainVerify.Calls.{IsConfirmed, verify_contract_tx-confirmed_iff}

-- One transaction, on no contract of its own, with one contract action.
abbrev indexer : Indexer
indexer = record {
  transaction = λ h.
      if text_eq h (codes "ab")
      then some (some (record { id = 7; contract_address = none; circuit_name = none }))
      else some none;
  result_status = λ _. some (some (codes "PARTIAL_SUCCESS"));
  actions = λ _.
      some (record { address = some (codes "0xCC"); entry_point = some (codes "attest") } ∷ []);
}

abbrev expecting : Text → Option Text → ChainCheckOpts
expecting contract circuit = record { contract_address = some contract; circuit = circuit }

verdicts :
    (verify_contract_tx indexer
        (expecting (codes "cc") (some (codes "attest")))
        (some (codes "0xAB"))
      ≡ confirmed)
    × (verify_contract_tx indexer
          (expecting (codes "cc") (some (codes "grantDisclosure")))
          (some (codes "ab"))
        ≡ failed)
    × (verify_contract_tx indexer (expecting (codes "cc") none) (some (codes "ad")) ≡ unknown)
    × (verify_contract_tx indexer (expecting (codes "cc") none) none ≡ unknown)
unfolding verify_contract_tx touches norm lower strip_0x text_eq
verdicts = (refl, refl, refl, refl)

abbrev opts : ChainCheckOpts
opts = expecting (codes "cc") (some (codes "attest"))

verify_contract_tx-confirmed_iff_example :
    (verify_contract_tx indexer opts (some (codes "0xAB")) ≡ confirmed)
    ↔ ((tx : TxRow) × IsConfirmed indexer opts (some (codes "0xAB")) tx)
verify_contract_tx-confirmed_iff_example =
    verify_contract_tx-confirmed_iff indexer opts (some (codes "0xAB"))
