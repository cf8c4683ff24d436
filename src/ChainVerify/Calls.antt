-- ===== src/ChainVerify/Calls.antt =====
-- Which transactions are confirmed, by the calls that the indexer has of them.
use nightpass.Base.{
  ◌≡◌, ◌⊎◌, ◌↔◌, inl, inr, refl, arith, true, List, [], ◌∷◌, Option, none, some, Text, text_eq_iff,
  norm, truthy, is_empty, Among, any-Among, and-eq-true_iff, Bool-cases,
}
use nightpass.ChainVerify.{
  confirmed, ChainCheckOpts, TxRow, ActionRow, Indexer, same_circuit, acts_on, any_action, touches,
  verify_contract_tx,
}
use nightpass.ChainVerify.Verdicts.{
  IsSuccess, IsIndexed, status_of, on_contract, hash_confirmed_iff,
}

is_empty_iff : (s : Text) → (is_empty s ≡ true) ↔ (s ≡ [])
is_empty_iff [] = ((λ h. refl), λ h. refl)
is_empty_iff (c ∷ s) = ((λ h. absurd (cc)), λ h. absurd (cc))

-- No two circuits are named that differ.
abbrev pub NoOther : Option Text → Option Text → Type 0
NoOther circuit name = (c n : Text) → circuit ≡ some c → name ≡ some n → n ≡ c

same_circuit_iff :
    (circuit name : Option Text) → (same_circuit circuit name ≡ true) ↔ NoOther circuit name
same_circuit_iff none name = ((λ h c n e f. absurd (cc)), λ h. refl)
same_circuit_iff (some c) none = ((λ h d n e f. absurd (cc)), λ h. refl)
same_circuit_iff (some c) (some n) = (
  (λ h d m e f. let same : n ≡ c = (text_eq_iff n c).0 h in cc),
  λ h. (text_eq_iff n c).1 (h c n refl refl),
)

-- A call of the contract, by its normalised address; if a circuit is expected and the call names one, they are
-- the same.
abbrev pub IsCall : ChainCheckOpts → Option Text → Option Text → Type 0
IsCall opts address name =
    (norm address ≡ norm opts.contract_address) × NoOther (truthy opts.circuit) (truthy name)

acts_on-IsCall :
    (opts : ChainCheckOpts) (address name : Option Text)
    → (acts_on (norm opts.contract_address) opts.circuit address name ≡ true)
      ↔ IsCall opts address name
acts_on-IsCall opts address name =
    let (to, from) = same_circuit_iff (truthy opts.circuit) (truthy name) in
    let (same, back) = text_eq_iff (norm address) (norm opts.contract_address) in
    (
      (λ h. let (a, b) = (and-eq-true_iff _ _).0 h in (same a, to b)),
      λ (a, b). (and-eq-true_iff _ _).1 (back a, from b),
    )

-- One of the actions that are read is such a call.
abbrev pub HasCall : ChainCheckOpts → Option (List ActionRow) → Type 0
HasCall opts o =
    (rows : List ActionRow) × (a : ActionRow) × (o ≡ some rows)
    × Among a rows
    × IsCall opts a.address a.entry_point

any_action-HasCall :
    (opts : ChainCheckOpts) (o : Option (List ActionRow))
    → (any_action (norm opts.contract_address) opts.circuit o ≡ true) ↔ HasCall opts o
any_action-HasCall opts none = ((λ h. absurd (cc)), λ (rows, a, e, _, _). absurd (cc))
any_action-HasCall opts (some rows) =
    let (to, from) =
      any-Among (λ a. acts_on (norm opts.contract_address) opts.circuit a.address a.entry_point)
        rows in
    (
      (λ h.
          let (a, member, on) = to h in
          (rows, a, refl, member, (acts_on-IsCall opts a.address a.entry_point).0 on)),
      λ (rs, a, e, member, call).
          let same : rs ≡ rows = cc in
          from (a, rw same at member, (acts_on-IsCall opts a.address a.entry_point).1 call),
    )

module _ (db : Indexer) (opts : ChainCheckOpts) where
  -- The transaction's own row is a call of the expected contract, or one of its actions is.
  abbrev pub Calls : TxRow → Type 0
  Calls tx = IsCall opts tx.contract_address tx.circuit_name ⊎ HasCall opts (db.actions tx.id)

  touches-Calls : (tx : TxRow) → (touches db opts tx ≡ true) ↔ Calls tx
  unfolding touches
  touches-Calls tx =
      let want = norm opts.contract_address in
      let (own, own_back) = acts_on-IsCall opts tx.contract_address tx.circuit_name in
      let (acts, acts_back) = any_action-HasCall opts (db.actions tx.id) in
      (
        (λ h. elim (Bool-cases (acts_on want opts.circuit tx.contract_address tx.circuit_name)) [
          | inl e ↦ inl (own e)
          | inr e ↦ inr (acts (rw e at h))
        ]),
        λ h. elim h [
          | inl call ↦ rw (own_back call) refl
          | inr later ↦ let on = acts_back later in ground arith
        ],
      )

  on_contract-Calls :
      (tx : TxRow)
      → (on_contract db opts tx ≡ true) ↔ ((norm opts.contract_address ≡ []) ⊎ Calls tx)
  on_contract-Calls tx =
      let (to, from) = touches-Calls tx in
      let (empty, filled) = is_empty_iff (norm opts.contract_address) in
      (
        (λ h. elim (Bool-cases (is_empty (norm opts.contract_address))) [
          | inl e ↦ inl (empty e)
          | inr e ↦ inr (to (rw e at h))
        ]),
        λ h. elim h [
          | inl none_given ↦ rw (filled none_given) refl
          | inr called ↦ let on = from called in ground arith
        ],
      )

  -- The transaction is indexed under the hash with a result that counts as success, and, if a contract is
  -- expected, calls it.
  abbrev pub IsConfirmed : Option Text → TxRow → Type 0
  IsConfirmed hash tx =
      IsIndexed db opts hash tx
      × IsSuccess (status_of db opts tx)
      × ((norm opts.contract_address ≡ []) ⊎ Calls tx)

  -- A hash is confirmed exactly if it is indexed, the recorded result is SUCCESS or PARTIAL_SUCCESS, and
  -- either no contract is expected, where any such transaction is confirmed, or the transaction's own row
  -- or one of its actions has the contract's address, and names no other circuit than one that is
  -- expected.
  pub verify_contract_tx-confirmed_iff :
      (hash : Option Text)
      → (verify_contract_tx db opts hash ≡ confirmed) ↔ ((tx : TxRow) × IsConfirmed hash tx)
  verify_contract_tx-confirmed_iff hash =
      let (to, from) = hash_confirmed_iff db opts hash in
      (
        (λ h.
            let (tx, indexed, (success, on)) = to h in
            (tx, (indexed, success, (on_contract-Calls tx).0 on))),
        λ (tx, (indexed, success, called)).
            from (tx, indexed, (success, (on_contract-Calls tx).1 called)),
      )
