-- ===== src/RemoteLane/Signers.antt =====
-- The registry of the seeds of runs (registerRemoteSigner and the functions beside it).
use nightpass.Base.{
  ℕ, ◌≡◌, refl, Bool, true, false, ◌&&◌, List, [], ◌∷◌, Option, none, some, is_some, Text, lower,
  is_hex, is_hex32, text_eq, text_eq_refl, text_eq_iff, all, length, ◌==◌, if◌then◌else◌, Result,
  ok, require, require-eq-ok, ◌>>◌, >>=-inv, Bool-cases, inl, inr, ◌≢◌, is_empty,
}
use nightpass.Base.Maps.{TextMap, lookup, insert, remove, lookup-insert, lookup-remove}
use nightpass.Base.Splits.{split_on}

pub record Signer : Type 0 where
  pub seed_hex : Text
  pub contract_address : Option Text

pub data SignerError : Type 0 where
  bad_handle bad_seed bad_contract : SignerError

abbrev pub is_group : ℕ → Text → Bool
is_group n s = length s == n && all is_hex s

abbrev pub are_groups : List Text → Bool
are_groups (a ∷ b ∷ c ∷ d ∷ e ∷ []) =
    is_group 8 a && is_group 4 b && is_group 4 c && is_group 4 d && is_group 12 e
are_groups _ = false

-- UUID_RE
unfoldable pub is_uuid : Text → Bool
unfolding split_on
is_uuid s = are_groups (split_on b'-' s)

abbrev pub good_contract : Option Text → Bool
good_contract none = true
good_contract (some c) = is_hex32 c

abbrev pub lower_option : Option Text → Option Text
lower_option none = none
lower_option (some c) = some (lower c)

abbrev pub signer_of : Text → Option Text → Signer
signer_of seed contract = record { seed_hex = lower seed; contract_address = lower_option contract }

unfoldable pub register_remote_signer :
    Text → Text → Option Text → TextMap Signer → Result SignerError (TextMap Signer)
unfolding is_uuid insert is_hex32 lower
register_remote_signer handle seed contract signers = do
  require (is_uuid handle) bad_handle
  require (length seed == 128 && all is_hex seed) bad_seed
  require (good_contract contract) bad_contract
  ok (insert handle (signer_of seed contract) signers)

unfoldable pub release_remote_signer : Text → TextMap Signer → TextMap Signer
unfolding remove
release_remote_signer handle signers = remove handle signers

unfoldable pub has_remote_signer : Text → TextMap Signer → Bool
unfolding lookup
has_remote_signer handle signers = is_some (lookup handle signers)

abbrev pub contract_of : Option Signer → Option Text
contract_of none = none
contract_of (some s) = s.contract_address

abbrev pub vault_of : Option Text → TextMap Signer → Option Text
vault_of none signers = none
vault_of (some handle) signers =
    if is_empty handle then none else contract_of (lookup handle signers)

unfoldable pub remote_vault_for : Option Text → TextMap Signer → Option Text
unfolding lookup
remote_vault_for handle signers = vault_of handle signers

-- The handle and the vault that were given were in form.
pub record Registered (handle : Text) (contract : Option Text) (before after : TextMap Signer)
    : Type 0 where
  pub uuid : is_uuid handle ≡ true
  pub contract_hex : good_contract contract ≡ true
  pub present : has_remote_signer handle after ≡ true
  pub vault : remote_vault_for (some handle) after ≡ lower_option contract
  pub others : (other : Text) → handle ≢ other → lookup other after ≡ lookup other before
  pub released : has_remote_signer handle (release_remote_signer handle after) ≡ false

uuid_given : (handle : Text) → is_uuid handle ≡ true → is_empty handle ≡ false
unfolding is_uuid split_on
uuid_given [] h = absurd (cc)
uuid_given (c ∷ s) h = refl

-- A registration that succeeds has a UUID as its handle and, if a vault is given, 32 bytes of hex for
-- it; the handle is then present with that vault in lower case, no other handle is touched, and after
-- its release it is absent.
pub register_remote_signer-Registered :
    (handle seed : Text) (contract : Option Text) (before after : TextMap Signer)
    → register_remote_signer handle seed contract before ≡ ok after
    → Registered handle contract before after
unfolding register_remote_signer release_remote_signer has_remote_signer remote_vault_for
register_remote_signer-Registered handle seed contract before after h =
    let (_, uuid, h') = >>=-inv (require (is_uuid handle) bad_handle) _ h in
    let (_, good_seed, h'') =
      >>=-inv (require (length seed == 128 && all is_hex seed) bad_seed) _ h' in
    let (_, vault, h''') = >>=-inv (require (good_contract contract) bad_contract) _ h'' in
    let same : insert handle (signer_of seed contract) before ≡ after = cc in
    let is_uuid' : is_uuid handle ≡ true = require-eq-ok (is_uuid handle) bad_handle uuid in
    let given = uuid_given handle is_uuid' in
    let here : lookup handle after ≡ some (signer_of seed contract) = rw (← same) (
      rw (lookup-insert handle handle (signer_of seed contract) before, text_eq_refl handle)
        refl) in
    record {
      uuid = is_uuid';
      contract_hex = require-eq-ok (good_contract contract) bad_contract vault;
      present = rw here refl;
      vault = rw (given, here) refl;
      others = λ other differs. rw (← same) (
          rw
            (
              lookup-insert handle other (signer_of seed contract) before,
              differs_of handle other differs,
            )
            refl);
      released = rw (lookup-remove handle handle after, text_eq_refl handle) refl;
    }
  where
    differs_of : (a b : Text) → a ≢ b → text_eq a b ≡ false
    differs_of a b differs = elim (Bool-cases (text_eq a b)) [
      | inl e ↦ absurd (differs ((text_eq_iff a b).0 e))
      | inr e ↦ e
    ]
