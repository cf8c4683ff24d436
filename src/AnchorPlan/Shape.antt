-- ===== src/AnchorPlan/Shape.antt =====
-- What an anchor plan holds, and when there is one.
use nightpass.Base.{
  ◌≡◌, refl, arith, List, [], ◌∷◌, ◌++◌, map, Option, none, some, Text, is_hex32, truthy, All,
  text_or_empty, String, Ensures, Ensures-bind, Ensures-elim, All-append, Bool, true, false, ◌&&◌,
  ok, is_ok,
}
use nightpass.AnchorPlan.{
  Circuit, attest, bind_document, anchor_content_root, AnchorCall, AnchorTx, AnchorPlanInput,
  check_hex32, root_calls, anchor_tx_plan,
}

-- The inputs that can be anchored: the three hashes are 32 bytes of hex, and a root that is given
-- comes with a schema id, both 32 bytes of hex.
abbrev root_plannable : Option Text → Option Text → Bool
root_plannable none schema = true
root_plannable (some root) none = false
root_plannable (some root) (some schema) = is_hex32 root && is_hex32 schema

abbrev pub plannable : AnchorPlanInput → Bool
plannable i =
    is_hex32 i.payload_hash
    && is_hex32 i.metadata_hash
    && is_hex32 i.passport_id_hash
    && root_plannable (truthy i.content_root) (truthy i.schema_id)

-- The circuits of the calls, in order.
abbrev pub circuits : List AnchorCall → List Circuit
circuits = map (λ c. c.circuit)

abbrev root_circuits : Option Text → List Circuit
root_circuits none = []
root_circuits (some root) = anchor_content_root ∷ []

-- The arguments of a circuit, from the payload hash, the root and schema id, and the other hashes.
abbrev args_of : AnchorPlanInput → Circuit → List Text
args_of i attest = i.payload_hash ∷ i.metadata_hash ∷ []
args_of i bind_document = i.passport_id_hash ∷ i.payload_hash ∷ []
args_of i anchor_content_root =
    i.payload_hash ∷ text_or_empty (truthy i.content_root) ∷ text_or_empty (truthy i.schema_id) ∷ []

-- The call has the arguments of its circuit, and each is 32 bytes of hex.
abbrev IsCall : AnchorPlanInput → AnchorCall → Type 0
IsCall i c = (c.args ≡ args_of i c.circuit) × All (λ a. is_hex32 a ≡ true) c.args

pub record IsAnchor (i : AnchorPlanInput) (tx : AnchorTx) : Type 0 where
  pub in_order :
      circuits tx.calls ≡ attest ∷ (root_circuits (truthy i.content_root) ++ bind_document ∷ [])
  pub all_calls : All (IsCall i) tx.calls

check_hex32-eq-ok :
    (s t : Text) (label : String) → check_hex32 s label ≡ ok t → (s ≡ t) × (is_hex32 t ≡ true)
unfolding check_hex32
check_hex32-eq-ok s t label e = ground arith

-- What the middle of the plan holds.
abbrev IsMiddle : AnchorPlanInput → Option Text → List AnchorCall → Type 0
IsMiddle i root middle = (circuits middle ≡ root_circuits root) × All (IsCall i) middle

root_calls-IsMiddle :
    (i : AnchorPlanInput) (root schema : Option Text)
    → truthy i.content_root ≡ root
    → truthy i.schema_id ≡ schema
    → is_hex32 i.payload_hash ≡ true
    → Ensures (IsMiddle i root) (root_calls i.payload_hash root schema)
unfolding root_calls
root_calls-IsMiddle i none schema er es hex = (refl, tt)
root_calls-IsMiddle i (some root) none er es hex = tt
root_calls-IsMiddle i (some root) (some schema) er es hex =
    Ensures-bind _ (check_hex32 root "contentRoot") _ λ r cr.
      Ensures-bind _ (check_hex32 schema "schemaId") _ λ s cs.
        let (same_r, hr) = check_hex32-eq-ok root r "contentRoot" cr in
        let (same_s, hs) = check_hex32-eq-ok schema s "schemaId" cs in
        (refl, ((rw (er, es, same_r, same_s) refl, (hex, (hr, (hs, tt)))), tt))

circuits-append : (xs ys : List AnchorCall) → circuits (xs ++ ys) ≡ circuits xs ++ circuits ys
circuits-append [] ys = refl
circuits-append (x ∷ xs) ys = rw (circuits-append xs ys)

-- The inputs' checks and the middle, put together.
anchor_tx_plan-Ensures :
    (i : AnchorPlanInput)
    → Ensures (λ txs. (tx : AnchorTx) × (txs ≡ tx ∷ []) × IsAnchor i tx) (anchor_tx_plan i)
unfolding anchor_tx_plan
anchor_tx_plan-Ensures i = Ensures-bind _ (check_hex32 i.payload_hash "payloadHash") _ λ p ep.
    Ensures-bind _ (check_hex32 i.metadata_hash "metadataHash") _ λ m em.
      Ensures-bind _ (check_hex32 i.passport_id_hash "passportIdHash") _ λ d ed.
        let hp : is_hex32 i.payload_hash ≡ true =
          ground (arith, check_hex32-eq-ok i.payload_hash p "payloadHash") in
        let hm : is_hex32 i.metadata_hash ≡ true =
          ground (arith, check_hex32-eq-ok i.metadata_hash m "metadataHash") in
        let hd : is_hex32 i.passport_id_hash ≡ true =
          ground (arith, check_hex32-eq-ok i.passport_id_hash d "passportIdHash") in
        Ensures-bind _ (root_calls i.payload_hash (truthy i.content_root) (truthy i.schema_id)) _
          λ mid e.
            let (order, good) =
              Ensures-elim (IsMiddle i (truthy i.content_root))
                (root_calls-IsMiddle i (truthy i.content_root) (truthy i.schema_id) refl refl hp)
                e in
            (
              _,
              refl,
              record {
                in_order = rw (circuits-append mid) (rw order);
                all_calls =
                    ((refl, (hp, (hm, tt))), All-append _ mid _ good ((refl, (hd, (hp, tt))), tt));
              },
            )

-- A plan is made exactly for the inputs that can be anchored.
pub anchor_tx_plan-is_ok : (i : AnchorPlanInput) → is_ok (anchor_tx_plan i) ≡ plannable i
unfolding anchor_tx_plan
anchor_tx_plan-is_ok i = ground arith

-- A plan that is made is one transaction: attest, then anchorContentRoot exactly if a root is given,
-- then bindDocument; every call has the arguments of its circuit, and each is 32 bytes of hex.
pub anchor_tx_plan-IsAnchor :
    (i : AnchorPlanInput) (txs : List AnchorTx)
    → anchor_tx_plan i ≡ ok txs
    → (tx : AnchorTx) × (txs ≡ tx ∷ []) × IsAnchor i tx
anchor_tx_plan-IsAnchor i txs =
    Ensures-elim (λ txs. (tx : AnchorTx) × (txs ≡ tx ∷ []) × IsAnchor i tx)
      (anchor_tx_plan-Ensures i)
