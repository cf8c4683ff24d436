-- ===== src/PassportService/Grants.antt =====
-- The grants in force for a requester's grantees (effectiveGrantsFor). A level is a number; the rows of
-- the log come in the order of their creation.
pub mod InForce
pub mod Latest
use nightpass.Base.{
  ℕ, Bool, true, false, not, ◌&&◌, ◌||◌, List, [], ◌∷◌, ◌++◌, any, Option, none, some, Text, codes,
  text_eq, is_empty, leb, if◌then◌else◌,
}
use nightpass.Base.Maps.{TextMap, lookup, insert}

-- A row of midnight.DisclosureGrants, and one of passport.DisclosureGrantLog.
pub record ChainGrant : Type 0 where
  pub grantee : Text
  pub payload_hash : Option Text
  pub level : ℕ
  pub active : Bool

pub data GrantStatus : Type 0 where
  pending succeeded offline failed : GrantStatus

pub record LogRow : Type 0 where
  pub passport : Text
  pub grantee : Text
  pub level : ℕ
  pub is_grant : Bool
  pub status : GrantStatus

-- The columns of a passport that are read.
pub record PassportHash : Type 0 where
  pub id : Text
  pub payload_hash : Option Text

-- `bump`
abbrev pub at_least : Option ℕ → ℕ → ℕ
at_least none n = n
at_least (some m) n = if leb m n then n else m

unfoldable pub bump : Option Text → ℕ → TextMap ℕ → TextMap ℕ
unfolding lookup insert
bump none n out = out
bump (some hash) n out =
    let raised = insert hash (at_least (lookup hash out) n) out in
    if is_empty hash then out else raised

abbrev pub is_one_of : List Text → Text → Bool
is_one_of grantees g = any (text_eq g) grantees

unfoldable pub bump_chain : List Text → List ChainGrant → TextMap ℕ → TextMap ℕ
unfolding bump text_eq
bump_chain grantees [] out = out
bump_chain grantees (g ∷ gs) out =
    bump_chain grantees gs
      (if is_one_of grantees g.grantee && g.active then bump g.payload_hash g.level out else out)

abbrev pub is_settled : GrantStatus → Bool
is_settled succeeded = true
is_settled offline = true
is_settled _ = false

-- `${passport}|${grantee}`
abbrev pub log_key : LogRow → Text
log_key r = r.passport ++ (b'|' ∷ r.grantee)

-- The latest settled row of each passport and grantee.
unfoldable pub latest_rows : List Text → List LogRow → TextMap LogRow → TextMap LogRow
unfolding insert text_eq
latest_rows grantees [] latest = latest
latest_rows grantees (r ∷ rs) latest = latest_rows grantees rs (
    if is_one_of grantees r.grantee && is_settled r.status
    then insert (log_key r) r latest
    else latest)

-- `idToHash.get(id)`
unfoldable pub hash_of : Text → List PassportHash → Option Text
unfolding text_eq
hash_of id [] = none
hash_of id (p ∷ ps) = if text_eq p.id id then p.payload_hash else hash_of id ps

unfoldable pub bump_log : List PassportHash → TextMap LogRow → TextMap ℕ → TextMap ℕ
unfolding bump hash_of
bump_log passports [] out = out
bump_log passports (entry ∷ latest) out =
    bump_log passports latest (
      if entry.1.is_grant then bump (hash_of entry.1.passport passports) entry.1.level out else out)

-- Where a table is absent its part is left out.
abbrev pub rows_of : {A : Type 0} → Option (List A) → List A
rows_of none = []
rows_of (some rows) = rows

unfoldable pub effective_grants_for :
    List Text → Option (List ChainGrant) → Option (List LogRow) → List PassportHash → TextMap ℕ
unfolding bump_chain latest_rows bump_log
effective_grants_for [] chain log passports = []
effective_grants_for (g ∷ gs) chain log passports =
    bump_log passports (latest_rows (g ∷ gs) (rows_of log) [])
      (bump_chain (g ∷ gs) (rows_of chain) [])
