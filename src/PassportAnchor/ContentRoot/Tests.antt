-- ===== src/PassportAnchor/ContentRoot/Tests.antt =====
-- A tree of two leaves.
use nightpass.Base.{
  ℕ, ◌≡◌, refl, List, [], ◌∷◌, ◌++◌, Option, none, some, String, Text, codes, get_elem?, ok, err,
}
use nightpass.Base.JsNumber.{int}
use nightpass.PassportAnchor.ContentRoot.{
  Vault, Profile, Raw, number, numeric, ContentRoot, FieldMerkleProof, numeric_proof,
  build_content_root, proof_for, absent, uint_slot, schema_descriptors, descriptors_from,
  slots_from, slot_at, index_of, fold_schema_id, panel_too_long,
}
use nightpass.PassportAnchor.ContentRoot.Openings.{Opens, build_content_root-Opens}

opened : Unit {0}
unfolding build_content_root proof_for schema_descriptors descriptors_from slots_from slot_at
    index_of fold_schema_id
opened = tt

abbrev vault : Vault
vault = record {
  Bytes = Text;
  Levels = List Text;
  leaf_hash = λ key value salt. key ++ (value ∷ salt);
  bytes_leaf_hash = λ key digest salt. key ++ (digest ++ salt);
  absent_leaf_hash = λ key salt. key ++ salt;
  descriptor_leaf_hash = λ key kind scale. key ++ (kind ∷ scale ∷ []);
  slot_salt = λ seed i. i ∷ seed;
  empty_leaf_key = [];
  build_tree = λ leaves. leaves;
  root_hex = λ levels. [];
  path_of = λ levels i. (levels, []);
  from_hex32 = λ s. s;
  to_hex = λ s. s;
  field_key_hex = λ name. codes name;
  blake2b256_hex = λ s. s;
  scale_value = λ r. 7000;
  number_of = λ r. int 7;
  string_of = λ r. [];
  leaf_count = 2;
  value_scale = 1000;
}

abbrev profile : Profile
profile = record { panel = "cycles" ∷ []; kind_of = λ name. numeric }

abbrev values : String → Option Raw
values name = some (number (int 7))

abbrev seed : Text
seed = codes "s"

abbrev root : ContentRoot (List Text)
root = record {
  content_root = [];
  schema_id = [];
  salt_seed = seed;
  schema =
      record { field_key = codes "cycles"; kind = 0; scale = 1000 }
      ∷ record { field_key = []; kind = 2; scale = 0 }
      ∷ [];
  slots = uint_slot 7000 ∷ absent ∷ [];
  levels = (codes "cycles" ++ (7000 ∷ 0 ∷ seed)) ∷ (1 ∷ seed) ∷ [];
}

abbrev proof : FieldMerkleProof
proof = numeric_proof (codes "cycles") 7000 (0 ∷ seed) root.levels []

runs :
    (build_content_root vault profile values none seed ≡ ok root)
    × (proof_for vault profile values seed root.levels "cycles" ≡ some proof)
    × (proof_for vault profile values seed root.levels "other" ≡ none)
    × (build_content_root vault (record profile { panel = "a" ∷ "b" ∷ "c" ∷ [] }) values none seed
        ≡ err panel_too_long)
unfolding opened
runs = (refl, refl, refl, refl)

build_content_root-Opens_example :
    (i : ℕ) × (leaves : List Text) × (get_elem? profile.panel i ≡ some "cycles")
    × (root.levels ≡ vault.build_tree leaves)
    × (root.content_root ≡ vault.root_hex root.levels)
    × Opens vault profile values root.salt_seed "cycles" i root.levels
        (get_elem? root.slots i)
        (get_elem? leaves i)
        proof
build_content_root-Opens_example =
    build_content_root-Opens vault profile values none seed root "cycles" proof runs.0 runs.1
