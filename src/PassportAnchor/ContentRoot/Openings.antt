-- ===== src/PassportAnchor/ContentRoot/Openings.antt =====
-- What the openings and the proofs of a tree hold.
use nightpass.Base.{
  ℕ, zero, suc, ◌+◌, ◌≤◌, ◌<◌, ◌≡◌, inl, inr, refl, ap, arith, List, [], ◌∷◌, map, Option, none,
  some, String, str_eq, eq_iff, Text, length, get_elem?, ok, >>=-inv, Bool-cases, Option-cases,
}
use nightpass.PassportAnchor.ContentRoot.{
  FieldKind, numeric, string, Raw, Profile, SlotOpening, uint_slot, bytes_slot, SchemaDescriptor,
  FieldMerkleProof, numeric_proof, string_proof, Vault, ContentRoot, index_of, given, seed_of,
  slot_at, slots_from, value_slot, proof_of, proof_at, proof_for, schema_descriptors, root_of,
  build_content_root,
}

pub index_of-get :
    (name : String) (fs : List String) (i : ℕ)
    → index_of name fs ≡ some i
    → get_elem? fs i ≡ some name
unfolding index_of
index_of-get name [] i h = cc
index_of-get name (f ∷ fs) i h = elim (Bool-cases (str_eq f name)) [
  | inl e ↦
      let same : f ≡ name = (eq_iff f name).0 e in
      let first : i ≡ zero = cc (rw (e, index_of) at h) in rw (first, same)
  | inr e ↦ elim (Option-cases (index_of name fs)) [
    | inl f ↦ absurd (cc (rw (e, f, index_of) at h))
    | inr (j, f) ↦
        let later : i ≡ suc j = cc (rw (e, f, index_of) at h) in rw later (index_of-get name fs j f)
  ]
]

get-lt-length {ℓ} :
    {A : Type ℓ} (xs : List A) (i : ℕ) {a : A} → get_elem? xs i ≡ some a → i < length xs
get-lt-length [] i h = cc
get-lt-length (x ∷ xs) zero h = omega arith
get-lt-length (x ∷ xs) (suc i) h = omega (arith, get-lt-length xs i h)

get-map {ℓ κ} :
    {A : Type ℓ} {B : Type κ} (f : A → B) (xs : List A) (i : ℕ) {a : A}
    → get_elem? xs i ≡ some a
    → get_elem? (map f xs) i ≡ some (f a)
get-map f [] i h = cc
get-map f (x ∷ xs) zero h = cc
get-map f (x ∷ xs) (suc i) h = get-map f xs i h

module _ (v : Vault) (profile : Profile) (values : String → Option Raw) where
  module _ (seed : Text) where
    slots_from-get :
        (left i : ℕ) (xs : List (SlotOpening × v.Bytes))
        → slots_from v profile values seed left i ≡ ok xs
        → (k : ℕ) → k < left
        → (x : SlotOpening × v.Bytes) × (get_elem? xs k ≡ some x)
          × (slot_at v profile values seed (i + k) ≡ ok x)
    unfolding slots_from
    slots_from-get zero i xs h k lt = absurd (omega arith)
    slots_from-get (suc left) i xs h k lt =
        let (slot, here, h') = >>=-inv (slot_at v profile values seed i) _ h in
        let (rest, later, h'') = >>=-inv (slots_from v profile values seed left (i + 1)) _ h' in
        let shape : slot ∷ rest ≡ xs = cc in
        at_index slot rest xs here shape k lt (λ j. slots_from-get left (i + 1) rest later j)
      where
        at_index :
            (slot : SlotOpening × v.Bytes) (rest xs : List (SlotOpening × v.Bytes))
            → slot_at v profile values seed i ≡ ok slot
            → slot ∷ rest ≡ xs
            → (k : ℕ) → k < suc left
            → ((j : ℕ)
                → j < left
                → (x : SlotOpening × v.Bytes) × (get_elem? rest j ≡ some x)
                  × (slot_at v profile values seed ((i + 1) + j) ≡ ok x))
            → (x : SlotOpening × v.Bytes) × (get_elem? xs k ≡ some x)
              × (slot_at v profile values seed (i + k) ≡ ok x)
        at_index slot rest xs here shape zero lt ih =
            let start : i + zero ≡ i = omega arith in (slot, rw (← shape), rw start here)
        at_index slot rest xs here shape (suc k) lt ih =
            let (x, e, f) = ih k (omega arith) in
            let next : i + suc k ≡ (i + 1) + k = omega arith in (x, rw (← shape) e, rw next f)

    length-slots_from :
        (left i : ℕ) (xs : List (SlotOpening × v.Bytes))
        → slots_from v profile values seed left i ≡ ok xs
        → length xs ≡ left
    unfolding slots_from
    length-slots_from zero i xs h = let e : [] ≡ xs = cc in rw (← e)
    length-slots_from (suc left) i xs h =
        let (slot, here, h') = >>=-inv (slot_at v profile values seed i) _ h in
        let (rest, later, h'') = >>=-inv (slots_from v profile values seed left (i + 1)) _ h' in
        let shape : slot ∷ rest ≡ xs = cc in
        rw (← shape) (ap suc (length-slots_from left (i + 1) rest later))

  -- A proof opens the slot: it names the field, has the slot's value or digest, its salt and its path,
  -- and the slot's leaf is the hash of just that.
  abbrev pub Opens :
      Text → String → ℕ → v.Levels → Option SlotOpening → Option v.Bytes → FieldMerkleProof → Type 0
  Opens seed name i levels slot leaf (numeric_proof key value salt siblings dirs) =
      (slot ≡ some (uint_slot value))
      × (leaf ≡ some (v.leaf_hash (v.from_hex32 key) value (v.slot_salt (v.from_hex32 seed) i)))
      × (key ≡ v.field_key_hex name)
      × (salt ≡ v.to_hex (v.slot_salt (v.from_hex32 seed) i))
      × ((siblings, dirs) ≡ v.path_of levels i)
  Opens seed name i levels slot leaf (string_proof key digest salt siblings dirs) =
      (slot ≡ some (bytes_slot digest))
      × (leaf
          ≡ some (
              v.bytes_leaf_hash (v.from_hex32 key) (v.from_hex32 digest)
                (v.slot_salt (v.from_hex32 seed) i)))
      × (key ≡ v.field_key_hex name)
      × (salt ≡ v.to_hex (v.slot_salt (v.from_hex32 seed) i))
      × ((siblings, dirs) ≡ v.path_of levels i)

  value_slot-Opens :
      (seed name : Text) (field : String) (raw : Raw) (i : ℕ) (levels : v.Levels)
      (x : SlotOpening × v.Bytes) (kind : FieldKind)
      → value_slot v profile values seed kind field raw i ≡ ok x
      → Opens seed field i levels
          (some x.0)
          (some x.1)
          (proof_of v profile values seed kind field raw i levels)
  value_slot-Opens seed name field raw i levels x string h = (cc, cc, refl, refl, refl)
  value_slot-Opens seed name field raw i levels x numeric h =
      (ground arith, ground arith, refl, refl, refl)

  proof_at-Opens :
      (seed : Text) (field : String) (at : Option ℕ) (levels : v.Levels) (p : FieldMerkleProof)
      → proof_at v profile values seed field at (given (values field)) levels ≡ some p
      → (i : ℕ) × (raw : Raw) × (at ≡ some i)
        × (given (values field) ≡ some raw)
        × (proof_of v profile values seed (profile.kind_of field) field raw i levels ≡ p)
  proof_at-Opens seed field none levels p h = cc
  proof_at-Opens seed field (some i) levels p h = elim (Option-cases (given (values field))) [
    | inl e ↦ absurd (cc (rw e at h))
    | inr (raw, e) ↦ (i, raw, refl, e, cc (rw e at h))
  ]

  -- The slot of a proof's field in a tree that was built is opened with the proof's own value.
  slot-Opens :
      (seed : Text) (field : String) (i : ℕ) (raw : Raw) (levels : v.Levels)
      (xs : List (SlotOpening × v.Bytes)) (count : ℕ)
      → slots_from v profile values seed count 0 ≡ ok xs
      → i < count
      → get_elem? profile.panel i ≡ some field
      → given (values field) ≡ some raw
      → Opens seed field i levels
          (get_elem? (map (λ s. s.0) xs) i)
          (get_elem? (map (λ s. s.1) xs) i)
          (proof_of v profile values seed (profile.kind_of field) field raw i levels)
  unfolding slot_at
  slot-Opens seed field i raw levels xs count built lt named e =
      let (x, found, made) = slots_from-get seed count 0 xs built i lt in
      let start : 0 + i ≡ i = omega arith in
      let made' : slot_at v profile values seed i ≡ ok x = rw start at made in
      rw (get-map (λ s. s.0) xs i found, get-map (λ s. s.1) xs i found)
        (value_slot-Opens seed [] field raw i levels x (profile.kind_of field)
          (rw (named, e) at made'))

  panel_fits :
      (schema : List SchemaDescriptor)
      → schema_descriptors v profile ≡ ok schema
      → length profile.panel ≤ v.leaf_count
  unfolding schema_descriptors
  panel_fits schema h = ground arith

  -- A proof that a built tree gives is for a field of the panel; it names that field, and carries the
  -- value or digest with which the tree opens the field's slot, the salt of that slot, and its path; the
  -- slot's leaf is the hash of just that, and the tree and its root are built from the leaves.
  pub build_content_root-Opens :
      (salt_seed : Option Text) (fresh : Text) (root : ContentRoot v.Levels) (field : String)
      (p : FieldMerkleProof)
      → build_content_root v profile values salt_seed fresh ≡ ok root
      → proof_for v profile values root.salt_seed root.levels field ≡ some p
      → (i : ℕ) × (leaves : List v.Bytes) × (get_elem? profile.panel i ≡ some field)
        × (root.levels ≡ v.build_tree leaves)
        × (root.content_root ≡ v.root_hex root.levels)
        × Opens root.salt_seed field i root.levels (get_elem? root.slots i) (get_elem? leaves i) p
  unfolding build_content_root proof_for
  build_content_root-Opens salt_seed fresh root field p built given_proof =
      let (schema, described, built') = >>=-inv (schema_descriptors v profile) _ built in
      let (xs, made, built'') =
        >>=-inv (slots_from v profile values (seed_of v profile salt_seed fresh) v.leaf_count 0) _
          built' in
      let same : root_of v profile values (seed_of v profile salt_seed fresh) schema xs ≡ root =
        cc in
      let seed_same : root.salt_seed ≡ seed_of v profile salt_seed fresh = rw (← same) in
      let slots_same : root.slots ≡ map (λ s. s.0) xs = rw (← same) in
      let (i, raw, at, e, q) =
        proof_at-Opens root.salt_seed field (index_of field profile.panel) root.levels p
          given_proof in
      let named = index_of-get field profile.panel i at in
      let lt : i < v.leaf_count =
        omega (arith, get-lt-length profile.panel i named, panel_fits schema described) in
      let opens =
        slot-Opens root.salt_seed field i raw root.levels xs v.leaf_count (rw seed_same made) lt
          named e in
      let levels_same : root.levels ≡ v.build_tree (map (λ s. s.1) xs) = rw (← same) in
      let root_same : root.content_root ≡ v.root_hex root.levels = rw (← same) in
      (i, map (λ s. s.1) xs, named, levels_same, root_same, rw slots_same (rw q at opens))
