-- ===== src/ProducerWallets/Secrets.antt =====
-- What the public list depends on, and which wallet's secrets are handed out.
use nightpass.Base.{
  ◌≡◌, ◌⊎◌, inl, inr, refl, sym, ap, true, false, not, ◌&&◌, List, [], ◌∷◌, ◌++◌, map, Option, none,
  some, is_some, Text, codes, text_eq_iff, text_or_empty, is_empty, any, find, All, Among,
  Bool-cases,
}
use nightpass.Base.Splits.{Env, variable, trim}
use nightpass.ProducerWallets.{
  ProducerWalletSecrets, legacy_id, key_of, variable_name, wallet_of, legacy_wallet, configured_ids,
  legacy_given, registry, public_view, list_producer_wallets, only_one, has_id, default_or,
  wanted_wallet, WalletSecrets, secrets_from, secrets_of, producer_wallet_secrets,
}

-- The wallet's settings are the same, and the same secrets of it are set.
abbrev pub SameWallet : Env → Env → Text → Type 0
SameWallet a b id =
    (variable a (variable_name (key_of id) (codes "LABEL"))
      ≡ variable b (variable_name (key_of id) (codes "LABEL")))
    × (variable a (variable_name (key_of id) (codes "SHIELDED_ADDRESS"))
        ≡ variable b (variable_name (key_of id) (codes "SHIELDED_ADDRESS")))
    × (is_some (variable a (variable_name (key_of id) (codes "WALLET_MNEMONIC")))
        ≡ is_some (variable b (variable_name (key_of id) (codes "WALLET_MNEMONIC"))))
    × (is_some (variable a (variable_name (key_of id) (codes "VIEWING_KEY")))
        ≡ is_some (variable b (variable_name (key_of id) (codes "VIEWING_KEY"))))

-- Two environments that differ in the values of secrets only.
pub record SameButSecrets (a b : Env) : Type 0 where
  pub ids : configured_ids a ≡ configured_ids b
  pub wallets : All (SameWallet a b) (configured_ids b)
  pub legacy_label : variable a (codes "PRODUCER_LABEL") ≡ variable b (codes "PRODUCER_LABEL")
  pub legacy_owner :
      variable a (codes "PRODUCER_SHIELDED_ADDRESS")
      ≡ variable b (codes "PRODUCER_SHIELDED_ADDRESS")
  pub legacy_set : legacy_given a ≡ legacy_given b

module _ (a b : Env) (same : SameButSecrets a b) where
  public_view-wallet_of :
      (id : Text) → SameWallet a b id → public_view (wallet_of a id) ≡ public_view (wallet_of b id)
  unfolding wallet_of
  public_view-wallet_of id (label, owner, mnemonic, key) = rw (label, owner, mnemonic, key) refl

  views :
      (ids : List Text)
      → All (SameWallet a b) ids
      → map public_view (map (wallet_of a) ids) ≡ map public_view (map (wallet_of b) ids)
  views [] h = refl
  views (id ∷ ids) (here, h) = rw (public_view-wallet_of id here, views ids h) refl

  has_default :
      (ids : List Text)
      → any (has_id legacy_id) (map (wallet_of a) ids)
        ≡ any (has_id legacy_id) (map (wallet_of b) ids)
  unfolding wallet_of
  has_default [] = refl
  has_default (id ∷ ids) = rw (has_default ids) refl

  legacy_view : public_view (legacy_wallet a) ≡ public_view (legacy_wallet b)
  unfolding legacy_wallet
  legacy_view = rw (same.legacy_label, same.legacy_owner) refl

  map-snoc :
      (xs : List ProducerWalletSecrets) (x : ProducerWalletSecrets)
      → map public_view (xs ++ (x ∷ [])) ≡ map public_view xs ++ (public_view x ∷ [])
  map-snoc [] x = refl
  map-snoc (y ∷ ys) x = ap (λ r. public_view y ∷ r) (map-snoc ys x)

  -- The public list does not depend on the values of the secrets, only on which of them are set.
  pub list_producer_wallets-SameButSecrets : list_producer_wallets a ≡ list_producer_wallets b
  unfolding list_producer_wallets registry
  list_producer_wallets-SameButSecrets =
      rw (same.ids, same.legacy_set, has_default (configured_ids b))
        (elim (Bool-cases
          (legacy_given b && not (any (has_id legacy_id) (map (wallet_of b) (configured_ids b))))) [
            | inl e ↦ rw e (
                rw
                  (
                    map-snoc (map (wallet_of a) (configured_ids b)) (legacy_wallet a),
                    map-snoc (map (wallet_of b) (configured_ids b)) (legacy_wallet b),
                    views (configured_ids b) same.wallets,
                    legacy_view,
                  )
                  refl)
            | inr e ↦ rw e (views (configured_ids b) same.wallets)
          ])

find-has_id :
    (id : Text) (ws : List ProducerWalletSecrets) (w : ProducerWalletSecrets)
    → find (has_id id) ws ≡ some w
    → Among w ws × (w.id ≡ id)
find-has_id id [] w h = absurd (cc)
find-has_id id (x ∷ ws) w h = elim (Bool-cases (has_id id x)) [
  | inl e ↦
      let same : x ≡ w = cc (rw e at h) in (inl (sym same), rw (← same) ((text_eq_iff x.id id).0 e))
  | inr e ↦ let (member, named) = find-has_id id ws w (rw e at h) in (inr member, named)
]

only_one-some :
    (ws : List ProducerWalletSecrets) (w : ProducerWalletSecrets)
    → only_one ws ≡ some w
    → ws ≡ w ∷ []
only_one-some [] w h = absurd (cc)
only_one-some (x ∷ []) w h = cc
only_one-some (x ∷ y ∷ ws) w h = absurd (cc)

-- The wallet has the id; where none is given it is the default, or the only one.
abbrev pub Meant : Text → List ProducerWalletSecrets → ProducerWalletSecrets → Type 0
Meant wanted ws w =
    ((is_empty wanted ≡ false) × (w.id ≡ wanted))
    ⊎ ((is_empty wanted ≡ true) × ((w.id ≡ legacy_id) ⊎ (ws ≡ w ∷ [])))

wanted_wallet-Meant :
    (wanted : Text) (ws : List ProducerWalletSecrets) (w : ProducerWalletSecrets)
    → wanted_wallet wanted ws ≡ some w
    → Among w ws × Meant wanted ws w
unfolding wanted_wallet
wanted_wallet-Meant wanted ws w h = elim (Bool-cases (is_empty wanted)) [
  | inr given ↦
      let (member, named) = find-has_id wanted ws w (rw given at h) in (member, inl (given, named))
  | inl empty ↦ by_default (find (has_id legacy_id) ws) refl empty (rw empty at h)
]
  where
    by_default :
        (o : Option ProducerWalletSecrets)
        → find (has_id legacy_id) ws ≡ o
        → is_empty wanted ≡ true
        → default_or o ws ≡ some w
        → Among w ws × Meant wanted ws w
    by_default (some x) e empty h =
        let same : x ≡ w = cc in
        let (member, named) = find-has_id legacy_id ws w (rw same at e) in
        (member, inr (empty, inl named))
    by_default none e empty h =
        let one = only_one-some ws w h in (rw one (inl refl), inr (empty, inr one))

secrets_from-some :
    (m v : Option Text) (w : ProducerWalletSecrets) (s : WalletSecrets)
    → secrets_from m v w ≡ some s
    → (m ≡ some s.mnemonic) × (v ≡ some s.viewing_key) × (w.id ≡ s.id) × (w.owner ≡ s.owner)
secrets_from-some none v w s h = absurd (cc)
secrets_from-some (some m) none w s h = absurd (cc)
secrets_from-some (some m) (some v) w s h =
    let same : record {
      id = w.id;
      mnemonic = m;
      viewing_key = v;
      owner = w.owner;
      attester_id = w.attester_id;
    }
        ≡ s =
      cc in
    rw (← same) (refl, refl, refl, refl)

-- Secrets that are handed out are those of a configured wallet that has both: the one whose id is
-- asked for, and without an id the default or the only one.
pub producer_wallet_secrets-Meant :
    (env : Env) (wallet_id : Option Text) (s : WalletSecrets)
    → producer_wallet_secrets env wallet_id ≡ some s
    → (w : ProducerWalletSecrets) × Among w (registry env)
      × Meant (trim (text_or_empty wallet_id)) (registry env) w
      × (w.id ≡ s.id)
      × (w.owner ≡ s.owner)
      × (w.mnemonic ≡ some s.mnemonic)
      × (w.viewing_key ≡ some s.viewing_key)
unfolding producer_wallet_secrets
producer_wallet_secrets-Meant env wallet_id s h =
    by_wallet (wanted_wallet (trim (text_or_empty wallet_id)) (registry env)) refl h
  where
    by_wallet :
        (o : Option ProducerWalletSecrets)
        → wanted_wallet (trim (text_or_empty wallet_id)) (registry env) ≡ o
        → secrets_of o ≡ some s
        → (w : ProducerWalletSecrets) × Among w (registry env)
          × Meant (trim (text_or_empty wallet_id)) (registry env) w
          × (w.id ≡ s.id)
          × (w.owner ≡ s.owner)
          × (w.mnemonic ≡ some s.mnemonic)
          × (w.viewing_key ≡ some s.viewing_key)
    by_wallet none e h = absurd (cc)
    by_wallet (some w) e h =
        let (member, meant) =
          wanted_wallet-Meant (trim (text_or_empty wallet_id)) (registry env) w e in
        let (m, v, id, owner) = secrets_from-some w.mnemonic w.viewing_key w s h in
        (w, member, meant, id, owner, m, v)
