-- ===== src/PassportAnchor/ContentRoot.antt =====
-- The content tree of a passport version (schemaDescriptors, foldSchemaId, buildContentRoot). The
-- vault's pure circuits, the digests and the Merkle walk of the SDK are parameters; bytes are a
-- type of theirs.
pub mod Openings
mod Tests
use nightpass.Base.{
  ℕ, zero, suc, ◌+◌, Bool, true, false, List, [], ◌∷◌, map, Option, none, some, String, str_eq,
  Text, lower, is_hex32, if◌then◌else◌, ltb, length, get_elem?, or_else, Result, ok, err, ◌>>=◌,
  ◌>>◌, require, not,
}
use nightpass.Base.Decimal.{decimal}
use nightpass.Base.JsNumber.{JsNumber, is_finite}

pub data FieldKind : Type 0 where
  numeric string : FieldKind

-- A raw value of a field.
pub data Raw : Type 0 where
  text : Text → Raw
  number : JsNumber → Raw

pub record Profile : Type 0 where
  pub panel : List String
  pub kind_of : String → FieldKind

pub record SchemaDescriptor : Type 0 where
  pub field_key : Text
  -- 0 for uint, 1 for bytes, 2 for padding
  pub kind : ℕ
  pub scale : ℕ

-- `value` is the scaled number of a uint slot, `value_digest` the digest of a bytes slot.
pub data SlotOpening : Type 0 where
  absent : SlotOpening
  uint_slot : (value : ℕ) → SlotOpening
  bytes_slot : (value_digest : Text) → SlotOpening

pub data FieldMerkleProof : Type 0 where
  numeric_proof :
      (field_key : Text) (value : ℕ) (salt : Text) (siblings : List Text) (dirs : List Bool)
      → FieldMerkleProof
  string_proof :
      (field_key value_digest salt : Text) (siblings : List Text) (dirs : List Bool)
      → FieldMerkleProof

pub data RootError : Type 0 where
  panel_too_long : RootError
  not_numeric : String → RootError

-- What the tree is built with: the vault's circuits, the SDK's encodings and its Merkle tree.
pub record Vault : Type 1 where
  pub Bytes : Type 0
  pub Levels : Type 0
  pub leaf_hash : Bytes → ℕ → Bytes → Bytes
  pub bytes_leaf_hash : Bytes → Bytes → Bytes → Bytes
  pub absent_leaf_hash : Bytes → Bytes → Bytes
  pub descriptor_leaf_hash : Bytes → ℕ → ℕ → Bytes
  pub slot_salt : Bytes → ℕ → Bytes
  pub empty_leaf_key : Bytes
  pub build_tree : List Bytes → Levels
  pub root_hex : Levels → Text
  pub path_of : Levels → ℕ → List Text × List Bool
  pub from_hex32 : Text → Bytes
  pub to_hex : Bytes → Text
  pub field_key_hex : String → Text
  pub blake2b256_hex : Text → Text
  pub scale_value : Raw → ℕ
  pub number_of : Raw → JsNumber
  pub string_of : Raw → Text
  pub leaf_count : ℕ
  pub value_scale : ℕ

-- `panel.indexOf(name)`
unfoldable pub index_of : String → List String → Option ℕ
index_of name [] = none
index_of name (f ∷ fs) =
    if str_eq f name
    then some 0
    else elim (index_of name fs) [ none ↦ none | some i ↦ some (suc i) ]

-- `raw != null && raw !== ''`
abbrev pub given : Option Raw → Option Raw
given (some (text [])) = none
given r = r

module _ (v : Vault) (profile : Profile) where
  abbrev pub descriptor_of : Option String → SchemaDescriptor
  descriptor_of none = record { field_key = v.to_hex v.empty_leaf_key; kind = 2; scale = 0 }
  descriptor_of (some name) = elim (profile.kind_of name) [
    | string ↦ record { field_key = v.field_key_hex name; kind = 1; scale = 0 }
    | numeric ↦ record { field_key = v.field_key_hex name; kind = 0; scale = v.value_scale }
  ]

  unfoldable pub descriptors_from : ℕ → ℕ → List SchemaDescriptor
  descriptors_from zero i = []
  descriptors_from (suc left) i =
      descriptor_of (get_elem? profile.panel i) ∷ descriptors_from left (i + 1)

  unfoldable pub schema_descriptors : Result RootError (List SchemaDescriptor)
  unfolding descriptors_from
  schema_descriptors = do
    require (not (ltb v.leaf_count (length profile.panel))) panel_too_long
    ok (descriptors_from v.leaf_count 0)

  unfoldable pub fold_schema_id : List SchemaDescriptor → Text
  fold_schema_id schema = v.root_hex (
      v.build_tree (
        map
          (λ (d : SchemaDescriptor).
            v.descriptor_leaf_hash (v.from_hex32 d.field_key) d.kind d.scale)
          schema))

  unfoldable pub content_schema_id : Result RootError Text
  unfolding schema_descriptors fold_schema_id
  content_schema_id = do schema ← schema_descriptors; ok (fold_schema_id schema)

  -- The seed that is used: the one given, in lower case, if it is 32 bytes of hex, and a fresh one
  -- otherwise.
  abbrev pub seed_of : Option Text → Text → Text
  seed_of none fresh = fresh
  seed_of (some s) fresh = if is_hex32 s then lower s else fresh

  module _ (values : String → Option Raw) (seed : Text) where
    abbrev pub salt_at : ℕ → v.Bytes
    salt_at i = v.slot_salt (v.from_hex32 seed) i

    -- The raw value of the slot, if its field has one.
    abbrev pub raw_at : Option String → Option Raw
    raw_at none = none
    raw_at (some name) = given (values name)

    abbrev pub value_slot : FieldKind → String → Raw → ℕ → Result RootError (SlotOpening × v.Bytes)
    value_slot string name raw i =
        let digest = v.blake2b256_hex (v.string_of raw) in
        ok (
          bytes_slot digest,
          v.bytes_leaf_hash (v.from_hex32 (v.field_key_hex name)) (v.from_hex32 digest) (salt_at i),
        )
    value_slot numeric name raw i =
        if is_finite (v.number_of raw)
        then ok (
          uint_slot (v.scale_value raw),
          v.leaf_hash (v.from_hex32 (v.field_key_hex name)) (v.scale_value raw) (salt_at i),
        )
        else err (not_numeric name)

    abbrev pub absent_slot : Option String → ℕ → Result RootError (SlotOpening × v.Bytes)
    absent_slot name i =
        ok (absent, v.absent_leaf_hash (v.from_hex32 (descriptor_of name).field_key) (salt_at i))

    abbrev pub slot_of : Option String → Option Raw → ℕ → Result RootError (SlotOpening × v.Bytes)
    slot_of none raw i = absent_slot none i
    slot_of (some name) none i = absent_slot (some name) i
    slot_of (some name) (some raw) i = value_slot (profile.kind_of name) name raw i

    -- One round of the loop over the leaves.
    unfoldable pub slot_at : ℕ → Result RootError (SlotOpening × v.Bytes)
    slot_at i = let name = get_elem? profile.panel i in slot_of name (raw_at name) i

    unfoldable pub slots_from : ℕ → ℕ → Result RootError (List (SlotOpening × v.Bytes))
    slots_from zero i = ok []
    slots_from (suc left) i =
        slot_at i >>= λ slot. slots_from left (i + 1) >>= λ rest. ok (slot ∷ rest)

    abbrev pub proof_of : FieldKind → String → Raw → ℕ → v.Levels → FieldMerkleProof
    proof_of string name raw i levels =
        let (siblings, dirs) = v.path_of levels i in
        string_proof (v.field_key_hex name) (v.blake2b256_hex (v.string_of raw))
          (v.to_hex (salt_at i)) siblings dirs
    proof_of numeric name raw i levels =
        let (siblings, dirs) = v.path_of levels i in
        numeric_proof (v.field_key_hex name) (v.scale_value raw) (v.to_hex (salt_at i)) siblings
          dirs

    abbrev pub proof_at : String → Option ℕ → Option Raw → v.Levels → Option FieldMerkleProof
    proof_at name none raw levels = none
    proof_at name (some i) none levels = none
    proof_at name (some i) (some raw) levels =
        some (proof_of (profile.kind_of name) name raw i levels)

    unfoldable pub proof_for : v.Levels → String → Option FieldMerkleProof
    proof_for levels name = proof_at name (index_of name profile.panel) (given (values name)) levels

-- A built tree: its root, schema id, seed, openings and levels.
pub record ContentRoot (L : Type 0) : Type 0 where
  pub content_root : Text
  pub schema_id : Text
  pub salt_seed : Text
  pub schema : List SchemaDescriptor
  pub slots : List SlotOpening
  pub levels : L

module _ (v : Vault) (profile : Profile) (values : String → Option Raw) where
  abbrev pub root_of :
      Text → List SchemaDescriptor → List (SlotOpening × v.Bytes) → ContentRoot v.Levels
  root_of seed schema slots =
      let levels = v.build_tree (map (λ s. s.1) slots) in
      record {
        content_root = v.root_hex levels;
        schema_id = fold_schema_id v profile schema;
        salt_seed = seed;
        schema = schema;
        slots = map (λ s. s.0) slots;
        levels = levels;
      }

  -- `fresh` is newSaltSeed().
  unfoldable pub build_content_root : Option Text → Text → Result RootError (ContentRoot v.Levels)
  unfolding schema_descriptors
  build_content_root salt_seed fresh = schema_descriptors v profile >>= λ schema.
      slots_from v profile values (seed_of v profile salt_seed fresh) v.leaf_count 0 >>= λ slots.
      ok (root_of (seed_of v profile salt_seed fresh) schema slots)
