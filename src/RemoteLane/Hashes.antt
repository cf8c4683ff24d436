-- ===== src/RemoteLane/Hashes.antt =====
-- The hash of a transaction from what a job reports (resolveTxHash). A lookup is a function of the
-- attempt's number: `none` is one that throws, `some none` one without a hash.
use nightpass.Base.{
  ℕ, zero, suc, ◌+◌, ◌<◌, ◌≡◌, ◌⊎◌, inl, inr, refl, arith, true, Option, none, some, Text, lower,
  strip_0x, is_hex32, is_lower_hex32, is_lower_hex32-lower, text_or_empty, or_else, Bool-cases,
  if◌then◌else◌,
}

-- The hash in an answer, if it is one.
abbrev pub hash_in : Option (Option Text) → Option Text
hash_in none = none
hash_in (some none) = none
hash_in (some (some h)) = if is_hex32 (strip_0x h) then some (lower (strip_0x h)) else none

-- The attempts that are left, from attempt `i` on.
unfoldable pub lookup_loop : (ℕ → Option (Option Text)) → Text → ℕ → ℕ → Text
lookup_loop lookups id zero i = id
lookup_loop lookups id (suc left) i =
    let later = lookup_loop lookups id left (i + 1) in
    elim (hash_in (lookups i)) [ none ↦ later | some h ↦ h ]

unfoldable pub resolve_tx_hash : Option Text → (ℕ → Option (Option Text)) → Option ℕ → Text
unfolding lookup_loop
resolve_tx_hash identifier lookups attempts =
    let id = strip_0x (text_or_empty identifier) in
    if is_hex32 id then lower id else lookup_loop lookups id (or_else attempts 6) 0

hash_in-some : (a : Option (Option Text)) (h : Text) → hash_in a ≡ some h → is_lower_hex32 h ≡ true
hash_in-some none h e = absurd (cc)
hash_in-some (some none) h e = absurd (cc)
hash_in-some (some (some t)) h e = elim (Bool-cases (is_hex32 (strip_0x t))) [
  | inl hex ↦
      let same : lower (strip_0x t) ≡ h = cc (rw hex at e) in
      rw (← same) (is_lower_hex32-lower (strip_0x t) hex)
  | inr other ↦ absurd (cc (rw other at e))
]

-- The first attempt from `i` on that gives a hash, among those up to `to`.
abbrev pub FirstHash : (ℕ → Option (Option Text)) → ℕ → ℕ → Text → Type 0
FirstHash lookups i to h =
    (k : ℕ) × (k < to)
    × (hash_in (lookups k) ≡ some h)
    × ((j : ℕ) → i + j < k → hash_in (lookups (i + j)) ≡ none)

lookup_loop_lem :
    (lookups : ℕ → Option (Option Text)) (id : Text) (left i : ℕ)
    → FirstHash lookups i (i + left) (lookup_loop lookups id left i)
      ⊎ ((lookup_loop lookups id left i ≡ id)
          × ((j : ℕ) → j < left → hash_in (lookups (i + j)) ≡ none))
unfolding lookup_loop
lookup_loop_lem lookups id zero i = inr (refl, λ j lt. absurd (omega arith))
lookup_loop_lem lookups id (suc left) i =
    by_answer (lookup_loop_lem lookups id left (i + 1)) (hash_in (lookups i)) refl
  where
    past :
        (h : (j : ℕ) → j < left → hash_in (lookups ((i + 1) + j)) ≡ none)
        → hash_in (lookups i) ≡ none
        → (j : ℕ) → j < suc left
        → hash_in (lookups (i + j)) ≡ none
    past h e zero lt = let same : i + zero ≡ i = omega arith in rw same e
    past h e (suc j) lt =
        let same : i + suc j ≡ (i + 1) + j = omega arith in rw same (h j (omega arith))

    before :
        (k : ℕ)
        → ((j : ℕ) → (i + 1) + j < k → hash_in (lookups ((i + 1) + j)) ≡ none)
        → hash_in (lookups i) ≡ none
        → (j : ℕ) → i + j < k
        → hash_in (lookups (i + j)) ≡ none
    before k h e zero lt = let same : i + zero ≡ i = omega arith in rw same e
    before k h e (suc j) lt =
        let same : i + suc j ≡ (i + 1) + j = omega arith in rw same (h j (omega arith))

    by_answer :
        FirstHash lookups (i + 1) ((i + 1) + left) (lookup_loop lookups id left (i + 1))
          ⊎ ((lookup_loop lookups id left (i + 1) ≡ id)
              × ((j : ℕ) → j < left → hash_in (lookups ((i + 1) + j)) ≡ none))
        → (a : Option Text) → hash_in (lookups i) ≡ a
        → FirstHash lookups i
            (i + suc left)
            (elim a [ none ↦ lookup_loop lookups id left (i + 1) | some h ↦ h ])
          ⊎ ((elim a [ none ↦ lookup_loop lookups id left (i + 1) | some h ↦ h ] ≡ id)
              × ((j : ℕ) → j < suc left → hash_in (lookups (i + j)) ≡ none))
    by_answer ih (some h) e = inl (i, omega arith, e, λ j lt. absurd (omega arith))
    by_answer ih none e = elim ih [
      | inl (k, lt, hash, none_before) ↦ inl (k, omega arith, hash, before k none_before e)
      | inr (same, none_at_all) ↦ inr (same, past none_at_all e)
    ]

-- A reference is never lost: what is returned is the identifier itself, in lower case if it is a hash,
-- or the first hash that an attempt within the budget gives; then it is 32 bytes of lower case hex. An
-- identifier that is no hash is kept only after all attempts gave none.
pub resolve_tx_hash_lem :
    (identifier : Option Text) (lookups : ℕ → Option (Option Text)) (attempts : Option ℕ)
    → ((is_lower_hex32 (resolve_tx_hash identifier lookups attempts) ≡ true)
        × ((resolve_tx_hash identifier lookups attempts
              ≡ lower (strip_0x (text_or_empty identifier)))
            ⊎ FirstHash lookups 0
                (or_else attempts 6)
                (resolve_tx_hash identifier lookups attempts)))
      ⊎ ((resolve_tx_hash identifier lookups attempts ≡ strip_0x (text_or_empty identifier))
          × ((j : ℕ) → j < or_else attempts 6 → hash_in (lookups j) ≡ none))
unfolding resolve_tx_hash
resolve_tx_hash_lem identifier lookups attempts =
    let id = strip_0x (text_or_empty identifier) in
    elim (Bool-cases (is_hex32 id)) [
      | inl hex ↦ rw hex (inl (is_lower_hex32-lower id hex, inl refl))
      | inr other ↦ rw other (elim (lookup_loop_lem lookups id (or_else attempts 6) 0) [
        | inl (k, lt, hash, before) ↦
            inl (hash_in-some (lookups k) _ hash, inr (k, omega arith, hash, before))
        | inr (same, missed) ↦
            inr (same, λ j lt. let start : 0 + j ≡ j = omega arith in rw start at (missed j lt))
      ])
    ]
