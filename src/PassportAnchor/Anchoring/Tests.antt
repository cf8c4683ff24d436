-- ===== src/PassportAnchor/Anchoring/Tests.antt =====
-- An anchor over a concrete lane.
use nightpass.Base.{List, [], ◌∷◌, some, Text, codes, is_hex32, Result, ok, err}
use nightpass.AnchorPlan.{
  anchor_tx_plan, root_calls, attest, anchor_content_root, bind_document, check_hex32,
}
use nightpass.ChainLane.{LaneTx, AnchorTxInput}
use nightpass.PassportAnchor.Anchoring.{AnchorStep, AnchorOpts, anchor_passport, submit_all}

opened : Unit {0}
unfolding anchor_passport submit_all anchor_tx_plan root_calls check_hex32 is_hex32
opened = tt

abbrev id64 : Text
id64 = codes "0123456789abcdef0123456789abcdef0123456789abcdef0123456789abcdef"

abbrev blake : Text → Text
blake s = id64

abbrev lane : AnchorTxInput → Result Text LaneTx
lane i = ok (record { tx_hash = codes "aa"; job_id = codes "j1" })

abbrev down : AnchorTxInput → Result Text LaneTx
down i = err (codes "away")

abbrev opts : AnchorOpts
opts = record {
  payload_hash = id64;
  passport_id = codes "BAT-1";
  passport_id_hash = id64;
  contract_address = codes "cc";
  content_root = some id64;
  schema_id = some id64;
}

abbrev steps : List AnchorStep
steps =
    (record { kind = attest; job_id = codes "j1"; tx_hash = codes "aa" })
    ∷ (record { kind = anchor_content_root; job_id = codes "j1"; tx_hash = codes "aa" })
    ∷ (record { kind = bind_document; job_id = codes "j1"; tx_hash = codes "aa" })
    ∷ []

abbrev no_steps : List AnchorStep
no_steps = []
