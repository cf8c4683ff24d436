-- ===== src/PassportService.antt =====
-- srv/passport-service.ts: the tiers of disclosure and who reads at which; the partners. The SDK's ranks
-- of levels and its redaction are parameters, and so is the digest of a partner's name.
pub mod Grants
pub mod Reads
pub mod Partners
pub mod Networks
pub mod Verify
pub mod Versions
pub mod Probes
pub mod CrossRoots
mod Tests
mod ChainTests
use nightpass.Base.{
  Bool, true, false, not, ◌&&◌, ◌||◌, List, [], ◌∷◌, Option, none, some, Text, codes, text_eq,
  is_empty, if◌then◌else◌, ℕ,
}

pub data AccessLevel : Type 0 where
  everyone legitimate_interest authority : AccessLevel

-- The SDK's ACCESS_RANK, maxLevel and levelFromRank.
pub record LevelOps : Type 0 where
  pub rank : AccessLevel → ℕ
  pub max_level : AccessLevel → AccessLevel → AccessLevel
  pub level_from_rank : ℕ → AccessLevel

-- The user of a request, if there is one.
pub record User : Type 0 where
  pub id : Text
  pub has_role : Text → Bool

abbrev pub is_in_role : Option User → Text → Bool
is_in_role none role = false
is_in_role (some u) role = u.has_role role

unfoldable pub local_level_of : Option User → AccessLevel
local_level_of user =
    if is_in_role user (codes "authority")
    then authority
    else if is_in_role user (codes "recycler")
    then legitimate_interest
    else everyone

-- A row of midnight.GranteeIdentities; `scoped` if its scope is not null.
pub record Identity : Type 0 where
  pub user_id : Text
  pub grantee_id : Text
  pub scoped : Bool

unfoldable pub grantees_in : Text → List Identity → List Text
unfolding text_eq
grantees_in user_id [] = []
grantees_in user_id (i ∷ rows) =
    let rest = grantees_in user_id rows in
    if text_eq i.user_id user_id && not (is_empty i.grantee_id) then i.grantee_id ∷ rest else rest

-- `granteesOf`, where `none` are tables that are absent.
unfoldable pub grantees_of : Option User → Option (List Identity) → List Text
unfolding grantees_in text_eq
grantees_of none identities = []
grantees_of (some u) none = []
grantees_of (some u) (some rows) =
    if is_empty u.id || text_eq u.id (codes "anonymous") then [] else grantees_in u.id rows
