-- ===== src/ChainLane.antt =====
-- srv/lib/chain-lane.ts: the interface that every on-chain leg goes through, and the join of
-- claims with the ids of a response. What `JSON.parse` gives is part of a source.
pub mod Ids
mod Tests
use nightpass.Base.{ℕ, Bool, true, false, List, [], ◌∷◌, Option, none, some, Text, truthy, or_else}
use nightpass.Base.Maps.{TextMap, insert}
use nightpass.AnchorPlan.{AnchorTx}
use nightpass.ProofPlan.{Op, ResponseClaim, response_claim_key}

pub record LaneTx : Type 0 where
  pub tx_hash : Text
  pub job_id : Text

pub record AnchorTxInput : Type 0 where
  pub contract_address : Text
  pub tx : AnchorTx

-- One claim of a proof cart as it travels, with its witnesses.
pub data CartClaimArgs : Type 0 where
  numeric :
      (field_key value salt : Text) (siblings : List Text) (dirs : List Bool)
      → Op
      → (threshold : ℕ) (unit : Option Text) → CartClaimArgs
  member :
      (field_key value : Text) (allowed_values : List Text) (salt : Text) (siblings : List Text)
      (dirs : List Bool)
      → CartClaimArgs

pub record ProofCartInput : Type 0 where
  pub contract_address : Text
  pub payload_hash : Text
  pub attester_id : Option Text
  pub valid_until : Option ℕ
  pub content_root : Option Text
  pub schema_id : Option Text
  pub claims : List CartClaimArgs
  pub timeout_ms : ℕ

pub record ProofCartOutcome : Type 0 where
  pub tx : LaneTx
  pub claim_ids : TextMap Text

-- `partial`: the transaction landed, and the ledger may have applied a part of it.
pub record ProofCartError : Type 0 where
  pub message : Text
  pub partial : Bool
  pub job_id : Text
  pub claim_ids : TextMap Text

-- The kinds of claim that can be verified.
pub data ClaimPredicate : Type 0 where
  compares : Op → ClaimPredicate
  set_membership : ClaimPredicate

pub record ClaimVerifyInput : Type 0 where
  pub key : Text
  pub predicate_attestation_id : Option Text
  pub contract_address : Text
  pub payload_hash : Text
  pub attester_id : Option Text
  pub field_key : Text
  pub predicate : ClaimPredicate
  pub threshold : Option ℕ
  pub set_root : Option Text

-- An element of a response's `claims`: the id, the field, and the other components, which stand in
-- the element or in its `claim`.
pub record ResponseEntry : Type 0 where
  pub predicate_attestation_id : Option Text
  pub field_key : Option Text
  pub predicate : Option Text
  pub threshold : Option Text
  pub set_root : Option Text
  pub claim_predicate : Option Text
  pub claim_threshold : Option Text
  pub claim_set_root : Option Text

-- An argument: a list, a string that parses to a list, or anything else (a string that does not
-- parse, a value that is no list), which is passed over.
pub data Source : Type 0 where
  entries : List ResponseEntry → Source
  json_entries : List ResponseEntry → Source
  other : Source

-- `a ?? b`
abbrev pub first_some {ℓ} : {A : Type ℓ} → Option A → Option A → Option A
first_some none b = b
first_some (some a) b = some a

abbrev pub claim_of : ResponseEntry → ResponseClaim
claim_of c = record {
  field_key = c.field_key;
  predicate = first_some c.predicate c.claim_predicate;
  threshold = first_some c.threshold c.claim_threshold;
  set_root = first_some c.set_root c.claim_set_root;
}

-- The entry of one element: its id if that is not falsy, under its key if it has one.
abbrev pub keyed : Option Text → Option Text → Option (Text × Text)
keyed (some id) (some key) = some (key, id)
keyed id key = none

unfoldable pub entry_of : ResponseEntry → Option (Text × Text)
entry_of c = keyed (truthy c.predicate_attestation_id) (response_claim_key (claim_of c))

abbrev pub put : Option (Text × Text) → TextMap Text → TextMap Text
put none out = out
put (some (key, id)) out = insert key id out

unfoldable pub add_all : List ResponseEntry → TextMap Text → TextMap Text
add_all [] out = out
add_all (c ∷ cs) out = add_all cs (put (entry_of c) out)

abbrev pub list_of : Source → List ResponseEntry
list_of (entries cs) = cs
list_of (json_entries cs) = cs
list_of other = []

unfoldable pub add_sources : List Source → TextMap Text → TextMap Text
add_sources [] out = out
add_sources (src ∷ srcs) out = add_sources srcs (add_all (list_of src) out)

unfoldable pub claim_ids_by_key : List Source → TextMap Text
claim_ids_by_key sources = add_sources sources []
