-- ===== src/AnchorPlan.antt =====
-- srv/lib/anchor-plan.ts: the circuit calls that anchor one passport version, grouped into
-- transactions. A thrown error is a constructor of `PlanError`; the text of a message is left out.
pub mod Shape
mod Tests
use nightpass.Base.{
  List, [], ◌∷◌, ◌++◌, map, Option, none, some, String, Text, codes, is_hex32, join, truthy,
  if◌then◌else◌, Result, ok, err, ◌>>=◌, ◌>>◌,
}
use mathlib.Core.List.{flat_map}

pub data Circuit : Type 0 where
  attest bind_document anchor_content_root : Circuit

pub record AnchorCall : Type 0 where
  pub circuit : Circuit
  pub args : List Text

pub record AnchorTx : Type 0 where
  pub label : Text
  pub calls : List AnchorCall

pub record AnchorPlanInput : Type 0 where
  pub payload_hash : Text
  pub metadata_hash : Text
  pub passport_id_hash : Text
  pub content_root : Option Text
  pub schema_id : Option Text

pub data PlanError : Type 0 where
  not_hex32 : String → PlanError
  schema_id_missing : PlanError

abbrev pub circuit_name : Circuit → Text
circuit_name attest = codes "attest"
circuit_name bind_document = codes "bindDocument"
circuit_name anchor_content_root = codes "anchorContentRoot"

unfoldable pub check_hex32 : Text → String → Result PlanError Text
check_hex32 value label = if is_hex32 value then ok value else err (not_hex32 label)

-- The call that is pushed when a root is given; a falsy schema id is refused first.
unfoldable pub root_calls : Text → Option Text → Option Text → Result PlanError (List AnchorCall)
root_calls payload none schema = ok []
root_calls payload (some root) none = err schema_id_missing
root_calls payload (some root) (some schema) = do
  r ← check_hex32 root "contentRoot"
  s ← check_hex32 schema "schemaId"
  ok (record { circuit = anchor_content_root; args = payload ∷ r ∷ s ∷ [] } ∷ [])

-- `calls.map((c) => c.circuit).join('+')`
unfoldable pub label_of : List AnchorCall → Text
unfolding join
label_of calls = join (codes "+") (map (λ c. circuit_name c.circuit) calls)

unfoldable pub anchor_tx_plan : AnchorPlanInput → Result PlanError (List AnchorTx)
unfolding check_hex32 root_calls
anchor_tx_plan i = do
  check_hex32 i.payload_hash "payloadHash"
  check_hex32 i.metadata_hash "metadataHash"
  check_hex32 i.passport_id_hash "passportIdHash"
  middle ← root_calls i.payload_hash (truthy i.content_root) (truthy i.schema_id)
  let calls =
      record { circuit = attest; args = i.payload_hash ∷ i.metadata_hash ∷ [] }
      ∷ (middle
          ++ record { circuit = bind_document; args = i.passport_id_hash ∷ i.payload_hash ∷ [] }
            ∷ [])
  ok (record { label = label_of calls; calls = calls } ∷ [])

pub anchor_call_plan : AnchorPlanInput → Result PlanError (List AnchorCall)
anchor_call_plan i = do txs ← anchor_tx_plan i; ok (flat_map (λ (tx : AnchorTx). tx.calls) txs)
