-- ===== src/PassportService/Reads.antt =====
-- Who reads what: the handlers around the reads of passports, of their child entities and of their
-- attributes. A row, its redaction by the profile and that of a child row are parameters.
pub mod Disclosed
pub mod Gates
use nightpass.Base.{
  ℕ, Bool, true, false, not, ◌&&◌, ◌||◌, List, [], ◌∷◌, ◌++◌, map, any, Option, none, some, Text,
  codes, text_eq, is_empty, ltb, if◌then◌else◌, Result, ok, err,
}
use nightpass.Base.Maps.{TextMap, lookup}
use nightpass.QueryGuard.{Node, restricted_probe}
use nightpass.PassportService.{
  AccessLevel, everyone, legitimate_interest, authority, LevelOps, User, is_in_role, local_level_of,
  Identity, grantees_of,
}
use nightpass.PassportService.Grants.{ChainGrant, LogRow, PassportHash, effective_grants_for}

-- A column of a SELECT: `*`, one with the first element of its `ref`, or any other.
pub data Column : Type 0 where
  star : Column
  ref : Text → Column
  other : Column

abbrev pub is_star : Column → Bool
is_star star = true
is_star _ = false

abbrev pub names : Text → Column → Bool
names name (ref c) = text_eq c name
names name _ = false

abbrev pub with_column : Text → List Column → List Column
with_column name cols = if any (names name) cols then cols else cols ++ (ref name ∷ [])

-- The read of passports before the database.
unfoldable pub inject_columns : Option (List Column) → Option (List Column)
unfolding text_eq
inject_columns none = none
inject_columns (some cols) =
    if any is_star cols
    then some cols
    else some (with_column (codes "profile") (with_column (codes "payloadHash") cols))

-- What the database hands over: `asRows` takes an array or one object.
pub data ReadData (Row : Type 0) : Type 0 where
  rows : List Row → ReadData Row
  one : Row → ReadData Row
  no_data : ReadData Row

-- `effective && ph ? (effective.get(ph) ?? -1) : -1`, with `none` for -1.
unfoldable pub grant_level : Option (TextMap ℕ) → Option Text → Option ℕ
unfolding lookup
grant_level (some effective) (some hash) = if is_empty hash then none else lookup hash effective
grant_level _ _ = none

-- The tables that a read looks into; `none` are tables that are absent.
pub record Sources : Type 0 where
  pub identities : Option (List Identity)
  pub chain : Option (List ChainGrant)
  pub log : Option (List LogRow)
  pub passports : List PassportHash

unfoldable pub effective_of : List Text → Sources → Option (TextMap ℕ)
unfolding effective_grants_for
effective_of [] src = none
effective_of (g ∷ gs) src = some (effective_grants_for (g ∷ gs) src.chain src.log src.passports)

-- A child entity's minimum level and the columns for authorities only.
pub record ChildSpec : Type 0 where
  pub min_level : Option AccessLevel
  pub authority_columns : List Text

abbrev pub min_level_of : ChildSpec → AccessLevel
min_level_of spec = at_least spec.min_level
  where
    at_least : Option AccessLevel → AccessLevel
    at_least none = legitimate_interest
    at_least (some level) = level

-- What becomes of a query: it is answered 403 for a column, restricted to nothing, or goes on.
pub data Gate : Type 0 where
  nothing : Gate
  rejected : Text → Gate
  goes_on : Gate

abbrev pub probing : Option Text → Gate
probing none = goes_on
probing (some column) = rejected column

-- A hit is asked for unless the user is an authority.
abbrev pub unless_authority : AccessLevel → Option Text → Gate
unless_authority authority hit = goes_on
unless_authority _ hit = probing hit

-- The read of a child entity before the database.
unfoldable pub before_child : LevelOps → ChildSpec → Option User → Node → Gate
unfolding local_level_of restricted_probe
before_child ops spec user select =
    let level = local_level_of user in
    if ltb (ops.rank level) (ops.rank (min_level_of spec))
    then nothing
    else unless_authority level (restricted_probe select spec.authority_columns)

-- The classes of attributes that are read; `none` does not restrict them.
unfoldable pub allowed_classes : Option User → Option (List AccessLevel)
unfolding local_level_of
allowed_classes user = of_level (local_level_of user)
  where
    of_level : AccessLevel → Option (List AccessLevel)
    of_level authority = none
    of_level legitimate_interest = some (everyone ∷ legitimate_interest ∷ [])
    of_level everyone = some (everyone ∷ [])

-- A row is left out, or redacted and kept.
abbrev pub keep_row :
    {Row : Type 0}
    → LevelOps
    → (AccessLevel → Row → Row)
    → Bool
    → AccessLevel
    → Option ℕ
    → Row
    → List Row
    → List Row
keep_row ops redact is_partner local none row rest =
    if is_partner then rest else redact (ops.max_level local everyone) row ∷ rest
keep_row ops redact is_partner local (some n) row rest =
    redact (ops.max_level local (ops.level_from_rank n)) row ∷ rest

module _ {Row : Type 0} (ops : LevelOps) (hash_of_row : Row → Option Text)
    (redact : AccessLevel → Row → Row) where
  unfoldable pub kept : Bool → AccessLevel → Option (TextMap ℕ) → List Row → List Row
  unfolding grant_level
  kept is_partner local effective [] = []
  kept is_partner local effective (row ∷ rs) =
      let rest = kept is_partner local effective rs in
      keep_row ops redact is_partner local (grant_level effective (hash_of_row row)) row rest

  -- The read of passports behind the database. One object is redacted, or left as it is.
  unfoldable pub after_passports : Option User → Sources → ReadData Row → ReadData Row
  unfolding kept grant_level effective_of grantees_of local_level_of
  after_passports user src (rows rs) = rows (
      kept (is_in_role user (codes "partner")) (local_level_of user)
        (effective_of (grantees_of user src.identities) src) rs)
  after_passports user src (one row) =
      one
        (seen (grant_level (effective_of (grantees_of user src.identities) src) (hash_of_row row)))
    where
      seen : Option ℕ → Row
      seen none =
          if is_in_role user (codes "partner")
          then row
          else redact (ops.max_level (local_level_of user) everyone) row
      seen (some n) = redact (ops.max_level (local_level_of user) (ops.level_from_rank n)) row
  after_passports user src no_data = no_data

-- The read of a child entity behind the database.
unfoldable pub after_child :
    {Row : Type 0} → (AccessLevel → Row → Row) → Option User → List Row → List Row
unfolding local_level_of
after_child redact_child user rs = map (redact_child (local_level_of user)) rs
