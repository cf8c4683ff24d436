-- ===== src/StateVerify/Roots.antt =====
-- The drift signal and the attester of an anchor.
use nightpass.Base.{
  ◌≡◌, ◌↔◌, ◌⊎◌, refl, arith, Bool, true, false, not, Option, none, some, Text, norm, is_empty,
  is_lower_hex32, Bool-cases, ◌||◌, inl, inr,
}
use nightpass.StateVerify.{
  RecordSelector, SelectorArgs, record_selector_args, attestation, by_document, Answer, Reader,
  mismatch, root_state_of, root_state_for, wants_schema, root_query, attest_root_state, attester_of,
  resolve_anchor_attester,
}

-- The record is attested, and the read reports another root, or another schema that was asked for.
abbrev pub Drifted : Bool → Answer → Type 0
Drifted wanted a =
    (a.attested ≡ some true)
    × ((a.content_root_ok ≡ some false) ⊎ ((wanted ≡ true) × (a.schema_ok ≡ some false)))

root_state_of-mismatch :
    (wanted : Bool) (a : Answer) → (root_state_of wanted (some a) ≡ mismatch) ↔ Drifted wanted a
root_state_of-mismatch wanted a = ground arith

module _ (env : Reader) where
  root_state_of_read :
      (wanted : Bool) (r : Option Answer)
      → (root_state_of wanted r ≡ mismatch) ↔ ((a : Answer) × (r ≡ some a) × Drifted wanted a)
  root_state_of_read wanted none = ((λ h. cc), λ (a, e, _). cc)
  root_state_of_read wanted (some a) =
      let (to, from) = root_state_of-mismatch wanted a in
      ((λ h. (a, refl, to h)), λ (b, e, d). let same : a ≡ b = cc in from (rw same d))

  root_state_for-mismatch :
      (s : Option SelectorArgs) (root schema : Text)
      → (root_state_for env s root schema ≡ mismatch) ↔ (
          (sel : SelectorArgs) × (a : Answer) × (s ≡ some sel)
          × (is_empty root ≡ false)
          × (env.read (root_query env sel root schema) ≡ some a)
          × Drifted (wants_schema env schema) a)
  root_state_for-mismatch none root schema = ((λ h. cc), λ (sel, a, e, _, _, _). cc)
  root_state_for-mismatch (some sel) root schema = elim (Bool-cases (is_empty root)) [
    | inl e ↦ ((λ h. cc (rw e at h)), λ (t, a, f, g, _, _). cc (e, g))
    | inr e ↦
        let (to, from) =
          root_state_of_read (wants_schema env schema)
            (env.read (root_query env sel root schema)) in
        (
          (λ h. let (a, r, d) = to (rw e at h) in (sel, a, refl, e, r, d)),
          (λ (t, a, f, _, r, d). let same : sel ≡ t = cc in rw e (from (a, rw same r, d))),
        )
  ]

  -- A drift is reported exactly if the record can be named, a root is given, and the read of that
  -- record answers that it is attested with another root, or with another schema where the schema
  -- was asked for.
  pub attest_root_state-mismatch_iff :
      (o : RecordSelector) (root schema : Option Text)
      → (attest_root_state env o root schema ≡ mismatch) ↔ (
          (sel : SelectorArgs) × (a : Answer) × (record_selector_args o ≡ some sel)
          × (is_empty (norm root) ≡ false)
          × (env.read (root_query env sel (norm root) (norm schema)) ≡ some a)
          × Drifted (wants_schema env (norm schema)) a)
  unfolding attest_root_state
  attest_root_state-mismatch_iff o root schema =
      root_state_for-mismatch (record_selector_args o) (norm root) (norm schema)

  attester_of-some :
      (r : Option Answer) (id : Text)
      → attester_of env r ≡ some id
      → (is_lower_hex32 id ≡ true)
        × ((a : Answer) × (r ≡ some a) × (a.attested ≡ some true) × (norm a.attester_id ≡ id))
  attester_of-some none id h = cc
  attester_of-some (some a) id h = (ground arith, (a, refl, ground arith, ground arith))

  -- An attester that is resolved is the 32 bytes of hex that the read of the bound document answers
  -- for an attested record.
  pub resolve_anchor_attester_lem :
      (contract document payload : Option Text) (id : Text)
      → resolve_anchor_attester env contract document payload ≡ some id
      → (is_lower_hex32 id ≡ true)
        × ((a : Answer) × (env.read
                (attestation (by_document (norm contract) (norm document) (norm payload)) none none)
              ≡ some a)
            × (a.attested ≡ some true)
            × (norm a.attester_id ≡ id))
  unfolding resolve_anchor_attester
  resolve_anchor_attester_lem contract document payload id h =
      let c = norm contract in
      let r = env.read (attestation (by_document c (norm document) (norm payload)) none none) in
      let skip = is_empty c || not (is_lower_hex32 (norm document)) || is_empty (norm payload) in
      attester_of-some r id (elim (Bool-cases skip) [ inl e ↦ cc (rw e at h) | inr e ↦ rw e at h ])
