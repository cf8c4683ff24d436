-- ===== src/ProducerWallets/Tests.antt =====
-- A registry of two wallets.
use nightpass.Base.{
  ◌≡◌, refl, true, false, List, [], ◌∷◌, Among, none, some, codes, text_eq, text_or_empty,
  if◌then◌else◌,
}
use nightpass.Base.Patterns.{skip_spaces}
use nightpass.Base.Splits.{Env, variable, trim, drop_end, fields_of, split_on}
use nightpass.ProducerWallets.{
  ProducerWallet, ProducerWalletSecrets, key_of, wallet_of, legacy_wallet, registry,
  list_producer_wallets, fee_sponsor_wallet_ids, fee_sponsor_wallet_id, wanted_wallet,
  WalletSecrets, producer_wallet_secrets,
}
use nightpass.ProducerWallets.Secrets.{SameButSecrets, Meant, producer_wallet_secrets-Meant}

opened : Unit {0}
unfolding key_of wallet_of legacy_wallet registry list_producer_wallets fee_sponsor_wallet_ids
    fee_sponsor_wallet_id wanted_wallet producer_wallet_secrets variable trim drop_end skip_spaces
    fields_of split_on text_eq
opened = tt

-- Every other variable has the value "x".
abbrev env : Env
env name =
    if text_eq name (codes "PRODUCER_WALLETS")
    then some (codes "a-1, default,")
    else if text_eq name (codes "PRODUCER_A_1_VIEWING_KEY")
    then none
    else some (codes " x")

abbrev listed : List ProducerWallet
listed =
    record { id = codes "a-1"; label = codes "x"; owner = codes "x"; signing_ready = false }
    ∷ record { id = codes "default"; label = codes "x"; owner = codes "x"; signing_ready = true }
    ∷ []

abbrev secrets : WalletSecrets
secrets = record {
  id = codes "default";
  mnemonic = codes "x";
  viewing_key = codes "x";
  owner = codes "x";
  attester_id = some (codes "x");
}

runs :
    (list_producer_wallets env ≡ listed)
    × (producer_wallet_secrets env none ≡ some secrets)
    × (producer_wallet_secrets env (some (codes "a-1")) ≡ none)
    × (fee_sponsor_wallet_id env ≡ some (codes "x"))
    × (fee_sponsor_wallet_id (λ n. none) ≡ none)
unfolding opened
runs = (refl, refl, refl, refl, refl)

-- The default wallet has another mnemonic.
abbrev changed : Env
changed name =
    if text_eq name (codes "PRODUCER_DEFAULT_WALLET_MNEMONIC") then some (codes "y") else env name

same : SameButSecrets changed env
unfolding opened
same = record {
  ids = refl;
  wallets = ((refl, refl, refl, refl), ((refl, refl, refl, refl), tt));
  legacy_label = refl;
  legacy_owner = refl;
  legacy_set = refl;
}

producer_wallet_secrets-Meant_example :
    (w : ProducerWalletSecrets) × Among w (registry env)
    × Meant (trim (text_or_empty none)) (registry env) w
    × (w.id ≡ secrets.id)
    × (w.owner ≡ secrets.owner)
    × (w.mnemonic ≡ some secrets.mnemonic)
    × (w.viewing_key ≡ some secrets.viewing_key)
producer_wallet_secrets-Meant_example = producer_wallet_secrets-Meant env none secrets runs.1
