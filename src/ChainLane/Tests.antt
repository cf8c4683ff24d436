-- ===== src/ChainLane/Tests.antt =====
-- The join at concrete responses.
use nightpass.Base.{◌≡◌, refl, List, [], ◌∷◌, Option, none, some, Text, codes, lower, text_eq}
use nightpass.Base.Maps.{insert}
use nightpass.ProofPlan.{response_claim_key}
use nightpass.ChainLane.{
  ResponseEntry, Source, entries, json_entries, other, entry_of, add_all, add_sources,
  claim_ids_by_key,
}

abbrev entry : Option Text → ResponseEntry
entry id = record {
  predicate_attestation_id = id;
  field_key = some (codes "AB");
  predicate = none;
  threshold = some (codes "5");
  set_root = none;
  claim_predicate = some (codes "lessOrEqual");
  claim_threshold = none;
  claim_set_root = none;
}

abbrev sources : List Source
sources =
    json_entries (entry (some (codes "one")) ∷ [])
    ∷ other
    ∷ entries (entry (some (codes "two")) ∷ entry (some []) ∷ [])
    ∷ []

-- The later id wins, and an empty one is passed over.
joined_ids : claim_ids_by_key sources ≡ (codes "ab|5|lessOrEqual", codes "two") ∷ []
unfolding claim_ids_by_key add_sources add_all entry_of response_claim_key insert lower text_eq
joined_ids = refl
