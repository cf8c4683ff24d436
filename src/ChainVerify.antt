-- ===== src/ChainVerify.antt =====
-- srv/lib/chain-verify.ts: the verdict on a transaction hash that a client reports. The indexer's
-- tables are a parameter, where `none` is a read that throws.
pub mod Verdicts
pub mod Calls
mod Tests
use nightpass.Base.{
  ℕ, Bool, true, false, not, ◌&&◌, ◌||◌, List, [], ◌∷◌, Option, none, some, Text, codes, text_eq,
  norm, truthy, text_or_empty, is_empty, any, if◌then◌else◌,
}

pub data ChainVerdict : Type 0 where
  confirmed failed unknown : ChainVerdict

pub record ChainCheckOpts : Type 0 where
  pub contract_address : Option Text
  pub circuit : Option Text

pub record TxRow : Type 0 where
  pub id : ℕ
  pub contract_address : Option Text
  pub circuit_name : Option Text

pub record ActionRow : Type 0 where
  pub address : Option Text
  pub entry_point : Option Text

-- The reads of midnight.Transactions by hash, of the status column of midnight.TransactionResults
-- and of midnight.ContractActions by transaction.
pub record Indexer : Type 0 where
  pub transaction : Text → Option (Option TxRow)
  pub result_status : ℕ → Option (Option Text)
  pub actions : ℕ → Option (List ActionRow)

-- `norm(address) === want && (!circuit || !name || name === circuit)`
abbrev pub same_circuit : Option Text → Option Text → Bool
same_circuit none name = true
same_circuit (some c) none = true
same_circuit (some c) (some n) = text_eq n c

abbrev pub acts_on : Text → Option Text → Option Text → Option Text → Bool
acts_on want circuit address name =
    text_eq (norm address) want && same_circuit (truthy circuit) (truthy name)

-- The rows that are looked through when the transaction row itself does not match.
abbrev pub any_action : Text → Option Text → Option (List ActionRow) → Bool
any_action want circuit none = false
any_action want circuit (some rows) =
    any (λ (a : ActionRow). acts_on want circuit a.address a.entry_point) rows

-- The status text, "" if there is no row or the read throws.
abbrev pub status_text : Option (Option Text) → Text
status_text none = []
status_text (some status) = text_or_empty status

module _ (db : Indexer) (opts : ChainCheckOpts) where
  unfoldable pub touches : TxRow → Bool
  touches tx =
      let want = norm opts.contract_address in
      acts_on want opts.circuit tx.contract_address tx.circuit_name
      || any_action want opts.circuit (db.actions tx.id)

  -- The last check: a transaction that succeeded, against the expected contract.
  unfoldable pub contract_verdict : TxRow → ChainVerdict
  contract_verdict tx =
      if is_empty (norm opts.contract_address) || touches tx then confirmed else failed

  unfoldable pub status_verdict : TxRow → Text → ChainVerdict
  unfolding contract_verdict
  status_verdict tx status =
      if is_empty status
      then unknown
      else if text_eq status (codes "FAILURE")
      then failed
      else if not (text_eq status (codes "SUCCESS"))
          && not (text_eq status (codes "PARTIAL_SUCCESS"))
      then unknown
      else contract_verdict tx

  abbrev pub row_verdict : Option (Option TxRow) → ChainVerdict
  row_verdict none = unknown
  row_verdict (some none) = unknown
  row_verdict (some (some tx)) = status_verdict tx (status_text (db.result_status tx.id))

  unfoldable pub verify_contract_tx : Option Text → ChainVerdict
  unfolding status_verdict
  verify_contract_tx tx_hash =
      if is_empty (norm tx_hash) then unknown else row_verdict (db.transaction (norm tx_hash))
