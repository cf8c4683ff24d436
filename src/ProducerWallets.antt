-- ===== src/ProducerWallets.antt =====
-- srv/lib/producer-wallets.ts: the registry of the server's wallets. The environment is a function;
-- ids are ASCII, for which the upper case is that of letters.
pub mod Secrets
mod Tests
use nightpass.Base.{
  ℕ, zero, suc, ◌+◌, ◌-◌, Bool, true, false, not, ◌&&◌, ◌||◌, List, [], ◌∷◌, ◌++◌, map, Option,
  none, some, is_some, Text, codes, text_eq, text_or_empty, is_empty, is_digit, leb, ◌==◌, any,
  find, or_else, if◌then◌else◌,
}
use nightpass.Base.Splits.{Env, variable, fields_of, trim}

-- What leaves the server.
pub record ProducerWallet : Type 0 where
  pub id : Text
  pub label : Text
  pub owner : Text
  pub signing_ready : Bool

pub record ProducerWalletSecrets : Type 0 where
  pub id : Text
  pub label : Text
  pub owner : Text
  pub signing_ready : Bool
  pub attester_id : Option Text
  pub mnemonic : Option Text
  pub viewing_key : Option Text

abbrev pub legacy_id : Text
legacy_id = codes "default"

-- One character of `id.toUpperCase().replace(/[^A-Z0-9_]/g, '_')`.
abbrev pub key_char : ℕ → ℕ
key_char c =
    if leb b'a' c && leb c b'z'
    then c - 32
    else if is_digit c || (leb b'A' c && leb c b'Z') || c == b'_'
    then c
    else b'_'

unfoldable pub key_of : Text → Text
key_of id = map key_char id

-- `PRODUCER_${key}_${name}`
abbrev pub variable_name : Text → Text → Text
variable_name key name = codes "PRODUCER_" ++ (key ++ (b'_' ∷ name))

abbrev pub both : Option Text → Option Text → Bool
both a b = is_some a && is_some b

unfoldable pub wallet_of : Env → Text → ProducerWalletSecrets
unfolding key_of variable
wallet_of env id =
    let read = λ (name : Text). variable env (variable_name (key_of id) name) in
    record {
      id = id;
      label = or_else (read (codes "LABEL")) (codes "Producer " ++ id);
      owner = or_else (read (codes "SHIELDED_ADDRESS")) [];
      signing_ready = both (read (codes "WALLET_MNEMONIC")) (read (codes "VIEWING_KEY"));
      attester_id = read (codes "ATTESTER_ID");
      mnemonic = read (codes "WALLET_MNEMONIC");
      viewing_key = read (codes "VIEWING_KEY");
    }

unfoldable pub legacy_wallet : Env → ProducerWalletSecrets
unfolding variable
legacy_wallet env = record {
  id = legacy_id;
  label = or_else (variable env (codes "PRODUCER_LABEL")) (codes "Server wallet");
  owner = or_else (variable env (codes "PRODUCER_SHIELDED_ADDRESS")) [];
  signing_ready = true;
  attester_id = variable env (codes "PRODUCER_ATTESTER_ID");
  mnemonic = variable env (codes "PRODUCER_WALLET_MNEMONIC");
  viewing_key = variable env (codes "PRODUCER_VIEWING_KEY");
}

abbrev pub configured_ids : Env → List Text
configured_ids env = fields_of b',' (text_or_empty (env (codes "PRODUCER_WALLETS")))

abbrev pub legacy_given : Env → Bool
legacy_given env =
    both (variable env (codes "PRODUCER_WALLET_MNEMONIC"))
      (variable env (codes "PRODUCER_VIEWING_KEY"))

abbrev pub with_legacy : Env → List ProducerWalletSecrets → List ProducerWalletSecrets
with_legacy env out =
    if legacy_given env && not (any (λ (w : ProducerWalletSecrets). text_eq w.id legacy_id) out)
    then out ++ (legacy_wallet env ∷ [])
    else out

unfoldable pub registry : Env → List ProducerWalletSecrets
unfolding wallet_of legacy_wallet fields_of text_eq variable
registry env = with_legacy env (map (wallet_of env) (configured_ids env))

abbrev pub public_view : ProducerWalletSecrets → ProducerWallet
public_view w = record {
  id = w.id;
  label = w.label;
  owner = w.owner;
  signing_ready = w.signing_ready;
}

unfoldable pub list_producer_wallets : Env → List ProducerWallet
unfolding registry
list_producer_wallets env = map public_view (registry env)

unfoldable pub fee_sponsor_wallet_ids : Env → List Text
unfolding fields_of
fee_sponsor_wallet_ids env =
    fields_of b',' (text_or_empty (env (codes "PASSPORT_FEE_SPONSOR_WALLET")))

abbrev pub first_of : List Text → Option Text
first_of [] = none
first_of (x ∷ xs) = some x

unfoldable pub fee_sponsor_wallet_id : Env → Option Text
unfolding fee_sponsor_wallet_ids
fee_sponsor_wallet_id env = first_of (fee_sponsor_wallet_ids env)

abbrev pub only_one : List ProducerWalletSecrets → Option ProducerWalletSecrets
only_one (w ∷ []) = some w
only_one _ = none

abbrev pub has_id : Text → ProducerWalletSecrets → Bool
has_id id w = text_eq w.id id

abbrev pub default_or :
    Option ProducerWalletSecrets → List ProducerWalletSecrets → Option ProducerWalletSecrets
default_or none all_wallets = only_one all_wallets
default_or (some w) all_wallets = some w

-- The wallet that is meant: the one with the id, or without an id the default or the only one.
unfoldable pub wanted_wallet : Text → List ProducerWalletSecrets → Option ProducerWalletSecrets
unfolding text_eq
wanted_wallet wanted all_wallets =
    if is_empty wanted
    then default_or (find (has_id legacy_id) all_wallets) all_wallets
    else find (has_id wanted) all_wallets

pub record WalletSecrets : Type 0 where
  pub id : Text
  pub mnemonic : Text
  pub viewing_key : Text
  pub owner : Text
  pub attester_id : Option Text

abbrev pub secrets_from : Option Text → Option Text → ProducerWalletSecrets → Option WalletSecrets
secrets_from (some m) (some v) w = some (record {
  id = w.id;
  mnemonic = m;
  viewing_key = v;
  owner = w.owner;
  attester_id = w.attester_id;
})
secrets_from _ _ w = none

abbrev pub secrets_of : Option ProducerWalletSecrets → Option WalletSecrets
secrets_of none = none
secrets_of (some w) = secrets_from w.mnemonic w.viewing_key w

unfoldable pub producer_wallet_secrets : Env → Option Text → Option WalletSecrets
unfolding registry wanted_wallet trim
producer_wallet_secrets env wallet_id =
    secrets_of (wanted_wallet (trim (text_or_empty wallet_id)) (registry env))
