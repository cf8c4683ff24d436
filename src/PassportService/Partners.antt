-- ===== src/PassportService/Partners.antt =====
-- registerPartner: a partner's name is claimed once, and bound to the grantee for its reads. The digest
-- of a name and the tables' new keys are parameters; a column that is left out is none.
pub mod Claimed
use nightpass.Base.{
  Bool, true, false, not, ◌&&◌, List, [], ◌∷◌, ◌++◌, any, Option, none, some, Text, codes, text_eq,
  text_or_empty, is_empty, if◌then◌else◌, Result, ok, err,
}
use nightpass.Base.Acts.{Act, ◌>>=◌, ◌>>◌, return, modify, demand}
use nightpass.Base.Splits.{trim}
use nightpass.PassportService.{Identity}

pub data PartnerRole : Type 0 where
  recycler_role authority_role : PartnerRole

pub record Partner : Type 0 where
  pub did : Text
  pub name : Option Text
  pub role : PartnerRole
  pub grantee_id : Text
  pub secret : Text

-- What is answered: the partner without its secret.
pub record Registered : Type 0 where
  pub did : Text
  pub name : Option Text
  pub role : PartnerRole
  pub grantee_id : Text

pub data PartnerError : Type 0 where
  did_required secret_required already_registered : PartnerError

pub record Registry : Type 0 where
  pub partners : List Partner
  pub identities : List Identity

pub record Registration : Type 0 where
  pub did : Option Text
  pub name : Option Text
  pub role : Option Text
  pub secret : Option Text

abbrev pub role_of : Option Text → PartnerRole
role_of none = recycler_role
role_of (some r) = if text_eq r (codes "authority") then authority_role else recycler_role

abbrev pub is_registered : Text → List Partner → Bool
is_registered d partners = any (λ p. text_eq p.did d) partners

-- `where({ userId, scope: null })`
abbrev pub is_bound : Text → Identity → Bool
is_bound d i = text_eq i.user_id d && not i.scoped

-- The first row of the name is given the grantee, or a row is added.
unfoldable pub bind : Text → Text → List Identity → List Identity
unfolding text_eq
bind d grantee [] = (record { user_id = d; grantee_id = grantee; scoped = false }) ∷ []
bind d grantee (i ∷ rows) =
    let rest = bind d grantee rows in
    if is_bound d i then record i { grantee_id = grantee } ∷ rows else i ∷ rest

module _ (grantee_id_for : Text → Text) where
  abbrev pub new_partner : Registration → Text → Partner
  new_partner asked d = record {
    did = d;
    name = asked.name;
    role = role_of asked.role;
    grantee_id = grantee_id_for d;
    secret = text_or_empty asked.secret;
  }

  abbrev pub answer_to : Registration → Text → Registered
  answer_to asked d = record {
    did = d;
    name = asked.name;
    role = role_of asked.role;
    grantee_id = grantee_id_for d;
  }

  abbrev pub not_registered : Text → Registry → Result PartnerError (Unit {0})
  not_registered d s = if is_registered d s.partners then err already_registered else ok tt

  unfoldable pub register_partner : Registration → Act Registry PartnerError Registered
  unfolding trim bind text_eq
  register_partner asked =
      let d = trim (text_or_empty asked.did) in
      demand (not (is_empty d)) did_required
      >> demand (not (is_empty (text_or_empty asked.secret))) secret_required
      >> (λ s. (not_registered d s, s))
      >> modify (λ s. record s { partners = s.partners ++ (new_partner asked d ∷ []) })
      >> modify (λ s. record s { identities = bind d (grantee_id_for d) s.identities })
      >> return (answer_to asked d)
