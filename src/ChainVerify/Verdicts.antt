-- ===== src/ChainVerify/Verdicts.antt =====
-- What each verdict says of the chain.
use nightpass.Base.{
  ◌≡◌, ◌≢◌, ◌⊎◌, ◌↔◌, sym, refl, arith, Bool, true, false, ◌||◌, Option, none, some, Text, codes,
  text_eq_iff, norm, is_empty, inl, inr, Bool-cases,
}
use nightpass.ChainVerify.{
  ChainVerdict, confirmed, failed, unknown, ChainCheckOpts, TxRow, Indexer, touches, status_verdict,
  contract_verdict, row_verdict, status_text, verify_contract_tx,
}

-- The status is one of the two that count as success.
abbrev pub IsSuccess : Text → Type 0
IsSuccess status = (status ≡ codes "SUCCESS") ⊎ (status ≡ codes "PARTIAL_SUCCESS")

module _ (db : Indexer) (opts : ChainCheckOpts) where
  -- The hash is not empty, and is indexed as this transaction.
  abbrev pub IsIndexed : Option Text → TxRow → Type 0
  IsIndexed hash tx = (is_empty (norm hash) ≡ false) × (db.transaction (norm hash) ≡ some (some tx))

  abbrev pub status_of : TxRow → Text
  status_of tx = status_text (db.result_status tx.id)

  -- No contract is expected, or the transaction touches it.
  abbrev pub on_contract : TxRow → Bool
  on_contract tx = is_empty (norm opts.contract_address) || touches db opts tx

  abbrev pub Confirms : TxRow → Text → Type 0
  Confirms tx status = IsSuccess status × (on_contract tx ≡ true)

  abbrev pub Fails : TxRow → Text → Type 0
  Fails tx status = (status ≡ codes "FAILURE") ⊎ (IsSuccess status × (on_contract tx ≡ false))

  contract_verdict-cases :
      (tx : TxRow)
      → ((contract_verdict db opts tx ≡ confirmed) ↔ (on_contract tx ≡ true))
        × ((contract_verdict db opts tx ≡ failed) ↔ (on_contract tx ≡ false))
  unfolding contract_verdict
  contract_verdict-cases tx = ground arith

  status_verdict-confirmed :
      (tx : TxRow) (status : Text)
      → (status_verdict db opts tx status ≡ confirmed) ↔ Confirms tx status
  unfolding status_verdict
  status_verdict-confirmed tx status = ground (
    arith,
    text_eq_iff status (codes "FAILURE"),
    text_eq_iff status (codes "SUCCESS"),
    text_eq_iff status (codes "PARTIAL_SUCCESS"),
  )

  status_verdict-failed :
      (tx : TxRow) (status : Text) → (status_verdict db opts tx status ≡ failed) ↔ Fails tx status
  unfolding status_verdict
  status_verdict-failed tx status = ground (
    arith,
    text_eq_iff status (codes "FAILURE"),
    text_eq_iff status (codes "SUCCESS"),
    text_eq_iff status (codes "PARTIAL_SUCCESS"),
  )

  row_verdict-cases :
      (row : Option (Option TxRow)) (v : ChainVerdict)
      → v ≢ unknown
      → (row_verdict db opts row ≡ v)
        ↔ ((tx : TxRow) × (row ≡ some (some tx)) × (status_verdict db opts tx (status_of tx) ≡ v))
  row_verdict-cases none v known = ((λ e. absurd (known (sym e))), (λ (tx, e, _). cc))
  row_verdict-cases (some none) v known = ((λ e. absurd (known (sym e))), (λ (tx, e, _). cc))
  row_verdict-cases (some (some tx)) v known = ((λ e. (tx, refl, e)), (λ (t, e, r). cc))

  hash_verdict-cases :
      (hash : Option Text) (v : ChainVerdict)
      → v ≢ unknown
      → (verify_contract_tx db opts hash ≡ v)
        ↔ ((tx : TxRow) × IsIndexed hash tx × (status_verdict db opts tx (status_of tx) ≡ v))
  unfolding verify_contract_tx
  hash_verdict-cases hash v known = elim (Bool-cases (is_empty (norm hash))) [
    | inl e ↦ ((λ h. absurd (known (sym (rw e at h)))), (λ (tx, (given, _), _). cc (given, e)))
    | inr e ↦
        let (to, from) = row_verdict-cases (db.transaction (norm hash)) v known in
        (
          (λ h. let (tx, row, r) = to (rw e at h) in (tx, (e, row), r)),
          (λ (tx, (_, row), r). rw e (from (tx, row, r))),
        )
  ]

  -- The same, with the code's own test.
  pub hash_confirmed_iff :
      (hash : Option Text)
      → (verify_contract_tx db opts hash ≡ confirmed)
        ↔ ((tx : TxRow) × IsIndexed hash tx × Confirms tx (status_of tx))
  hash_confirmed_iff hash =
      let (to, from) = hash_verdict-cases hash confirmed (λ e. cc) in
      (
        (λ h. let (tx, ix, r) = to h in (tx, ix, (status_verdict-confirmed tx (status_of tx)).0 r)),
        (λ (tx, ix, c). from (tx, ix, (status_verdict-confirmed tx (status_of tx)).1 c)),
      )

  -- A hash fails exactly if it is indexed with the result FAILURE, or with a successful one of a
  -- transaction that does not touch the expected contract.
  pub verify_contract_tx-failed_iff :
      (hash : Option Text)
      → (verify_contract_tx db opts hash ≡ failed)
        ↔ ((tx : TxRow) × IsIndexed hash tx × Fails tx (status_of tx))
  verify_contract_tx-failed_iff hash =
      let (to, from) = hash_verdict-cases hash failed (λ e. cc) in
      (
        (λ h. let (tx, ix, r) = to h in (tx, ix, (status_verdict-failed tx (status_of tx)).0 r)),
        (λ (tx, ix, c). from (tx, ix, (status_verdict-failed tx (status_of tx)).1 c)),
      )
