-- ===== src/StateVerify/Selectors.antt =====
-- How a record is named.
use nightpass.Base.{
  ◌≡◌, arith, true, false, not, ◌&&◌, ◌||◌, some, norm, is_empty, is_lower_hex32, is_some,
}
use nightpass.StateVerify.{
  RecordSelector, SelectorArgs, by_attester, by_document, record_selector_args,
}

-- The arguments are the selector's own, normalised; the contract and the payload are not empty, and
-- the document id stands in only where the attester id is no 32 bytes of hex.
abbrev pub Named : RecordSelector → SelectorArgs → Type 0
Named o (by_attester c a p) =
    (c ≡ norm o.contract_address)
    × (a ≡ norm o.attester_id)
    × (p ≡ norm o.payload_hash)
    × (is_empty c ≡ false)
    × (is_empty p ≡ false)
    × (is_lower_hex32 a ≡ true)
Named o (by_document c d p) =
    (c ≡ norm o.contract_address)
    × (d ≡ norm o.document_id)
    × (p ≡ norm o.payload_hash)
    × (is_empty c ≡ false)
    × (is_empty p ≡ false)
    × (is_lower_hex32 d ≡ true)
    × (is_lower_hex32 (norm o.attester_id) ≡ false)

-- A selector that can be named is named by its own normalised values, by the attester if that is
-- 32 bytes of hex.
pub record_selector_args-Named :
    (o : RecordSelector) (sel : SelectorArgs) → record_selector_args o ≡ some sel → Named o sel
unfolding record_selector_args
record_selector_args-Named o (by_attester c a p) h = ground arith
record_selector_args-Named o (by_document c d p) h = ground arith

-- A selector can be named exactly if it has a contract, a payload, and an attester or document id of
-- 32 bytes of hex.
pub record_selector_args-is_some :
    (o : RecordSelector)
    → is_some (record_selector_args o) ≡ (
        not (is_empty (norm o.contract_address))
        && not (is_empty (norm o.payload_hash))
        && (is_lower_hex32 (norm o.attester_id) || is_lower_hex32 (norm o.document_id)))
unfolding record_selector_args
record_selector_args-is_some o = ground arith
