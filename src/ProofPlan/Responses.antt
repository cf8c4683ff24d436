-- ===== src/ProofPlan/Responses.antt =====
-- The join key of a claim in a response.
use nightpass.Base.{
  ◌≡◌, sym, ◌∙◌, [], ◌∷◌, ◌++◌, Option, some, Text, lower, is_empty, Lacks, split_unique,
  Bool-cases, inl, inr,
}
use nightpass.ProofPlan.{ResponseClaim, middle_of, response_claim_key}

-- A response that names a field and a predicate, in which no text has the separator.
abbrev pub Separable : Text → Text → Option Text → Option Text → Type 0
Separable field p threshold root =
    Lacks b'|' (lower field) × Lacks b'|' (middle_of p threshold root)

abbrev pub response : Text → Text → Option Text → Option Text → ResponseClaim
response field p threshold root = record {
  field_key = some field;
  predicate = some p;
  threshold = threshold;
  set_root = root;
}

key_of_response :
    (field : Text) (p : Text) (threshold root : Option Text) {key : Text}
    → response_claim_key (response field p threshold root) ≡ some key
    → key ≡ lower field ++ (b'|' ∷ (middle_of p threshold root ++ (b'|' ∷ p)))
unfolding response_claim_key
key_of_response [] p threshold root h = cc
key_of_response (c ∷ field) p threshold root h =
    elim (Bool-cases (is_empty (middle_of p threshold root))) [
      | inl e ↦ absurd (cc (rw e at h))
      | inr e ↦ cc (rw e at h)
    ]

-- Responses with one key agree on the field (up to case), on the predicate, and on the threshold or
-- set root.
pub response_claim_key-injective :
    (f g : Text) (p q : Text) (t u r s : Option Text) {key : Text}
    → Separable f p t r
    → Separable g q u s
    → response_claim_key (response f p t r) ≡ some key
    → response_claim_key (response g q u s) ≡ some key
    → (lower f ≡ lower g) × (p ≡ q) × (middle_of p t r ≡ middle_of q u s)
response_claim_key-injective f g p q t u r s (hf, hm) (hg, hn) e d =
    let same = sym (key_of_response f p t r e) ∙ key_of_response g q u s d in
    let (fields, tails) = split_unique b'|' (lower f) (lower g) _ _ hf hg same in
    let (mids, names) = split_unique b'|' (middle_of p t r) (middle_of q u s) _ _ hm hn tails in
    (fields, names, mids)
