-- ===== src/AnchorPlan/Tests.antt =====
-- Plans of concrete inputs, and the theorems at them.
use nightpass.Base.{◌≡◌, refl, List, [], ◌∷◌, none, some, Text, codes, ok, err, is_hex32}
use nightpass.AnchorPlan.{
  Circuit, AnchorTx, AnchorPlanInput, schema_id_missing, not_hex32, anchor_tx_plan, label_of,
}
use nightpass.AnchorPlan.Shape.{IsAnchor, anchor_tx_plan-IsAnchor}

abbrev hash : Text
hash = codes "0123456789abcdefABCDEF00000000000000000000000000000000000000abcd"

abbrev with_root : AnchorPlanInput
with_root = record {
  payload_hash = hash;
  metadata_hash = hash;
  passport_id_hash = hash;
  content_root = some hash;
  schema_id = some hash;
}

abbrev planned : List AnchorTx
planned =
    record {
      label = codes "attest+anchorContentRoot+bindDocument";
      calls =
          record { circuit = Circuit.attest; args = hash ∷ hash ∷ [] }
          ∷ record { circuit = Circuit.anchor_content_root; args = hash ∷ hash ∷ hash ∷ [] }
          ∷ record { circuit = Circuit.bind_document; args = hash ∷ hash ∷ [] }
          ∷ [];
    }
    ∷ []

with_root_plan : anchor_tx_plan with_root ≡ ok planned
unfolding anchor_tx_plan is_hex32 label_of
with_root_plan = refl

refused :
    (anchor_tx_plan (record with_root { schema_id = none }) ≡ err schema_id_missing)
    × (anchor_tx_plan (record with_root { payload_hash = codes "12" })
        ≡ err (not_hex32 "payloadHash"))
unfolding anchor_tx_plan is_hex32
refused = (refl, refl)

anchor_tx_plan-IsAnchor_example : (tx : AnchorTx) × (planned ≡ tx ∷ []) × IsAnchor with_root tx
anchor_tx_plan-IsAnchor_example = anchor_tx_plan-IsAnchor with_root planned with_root_plan
