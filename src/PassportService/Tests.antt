-- ===== src/PassportService/Tests.antt =====
-- The disclosure tiers and the partners at concrete inputs.
use nightpass.Base.{
  ℕ, ◌≡◌, ◌⊎◌, ◌↔◌, refl, Bool, true, false, List, [], ◌∷◌, Option, none, some, Text, codes,
  text_eq, ltb, ◌==◌, if◌then◌else◌, Among, All, Distinct, ok, err,
}
use nightpass.Base.Maps.{lookup}
use nightpass.QueryGuard.{
  Node, falsy, text, array, object, no_nodes, node, no_props, prop, props_of,
}
use nightpass.QueryGuard.Restricted.{Uses}
use nightpass.PassportService.{
  AccessLevel, everyone, legitimate_interest, authority, LevelOps, User, local_level_of,
}
use nightpass.PassportService.Grants.{
  LogRow, PassportHash, GrantStatus, pending, succeeded, offline, effective_grants_for,
}
use nightpass.PassportService.Reads.{
  rows, one, Sources, after_passports, ChildSpec, min_level_of, goes_on, nothing, rejected,
  before_child,
}
use nightpass.PassportService.Reads.Disclosed.{Shown, after_passports-Shown}
use nightpass.PassportService.Reads.Gates.{before_child-goes_on_iff}
use nightpass.PassportService.Partners.{
  Partner, Registered, recycler_role, already_registered, Registry, Registration, register_partner,
}
use nightpass.PassportService.Partners.Claimed.{register_partner-Distinct}
use nightpass.PassportAnchor.Network.{Config}
use nightpass.PassportService.Verify.{AnchoredRow, PeerAnswer, Verification}

abbrev rank_of : AccessLevel → ℕ
rank_of everyone = 0
rank_of legitimate_interest = 1
rank_of authority = 2

abbrev higher : AccessLevel → AccessLevel → AccessLevel
higher authority b = authority
higher legitimate_interest everyone = legitimate_interest
higher legitimate_interest b = b
higher everyone b = b

abbrev level_at : ℕ → AccessLevel
level_at n = if n == 0 then everyone else if n == 1 then legitimate_interest else authority

abbrev ops : LevelOps
ops = record { rank = rank_of; max_level = higher; level_from_rank = level_at }

abbrev partner : User
partner = record { id = codes "did:p"; has_role = text_eq (codes "partner") }

abbrev row_of : Text → Text → ℕ → Bool → GrantStatus → LogRow
row_of passport grantee level is_grant status = record {
  passport = passport;
  grantee = grantee;
  level = level;
  is_grant = is_grant;
  status = status;
}

-- A grant for the first passport, revoked for the second, and one that is pending for the third.
abbrev log : List LogRow
log =
    row_of (codes "1") (codes "g") 1 true offline
    ∷ row_of (codes "2") (codes "g") 2 true succeeded
    ∷ row_of (codes "2") (codes "g") 2 false offline
    ∷ row_of (codes "3") (codes "g") 2 true pending
    ∷ []

abbrev hashes : List PassportHash
hashes =
    record { id = codes "1"; payload_hash = some (codes "a") }
    ∷ record { id = codes "2"; payload_hash = some (codes "b") }
    ∷ record { id = codes "3"; payload_hash = some (codes "c") }
    ∷ []

abbrev sources : Sources
sources = record {
  identities =
      some (record { user_id = codes "did:p"; grantee_id = codes "g"; scoped = false } ∷ []);
  chain = none;
  log = some log;
  passports = hashes;
}

in_force : effective_grants_for (codes "g" ∷ []) none (some log) hashes ≡ (codes "a", 1) ∷ []
unfolding effective_grants_for
in_force = refl

raised : lookup (codes "a") (effective_grants_for (codes "g" ∷ []) none (some log) hashes) ≡ some 1
unfolding effective_grants_for
raised = refl

-- A row is its hash and the level at which it was redacted.
abbrev Row : Type 0
Row = Text × AccessLevel

abbrev redact : AccessLevel → Row → Row
redact level row = (row.0, level)

abbrev hash_of_row : Row → Option Text
hash_of_row row = some row.0

abbrev table : List Row
table = (codes "a", authority) ∷ (codes "b", authority) ∷ (codes "c", authority) ∷ []

seen :
    after_passports ops hash_of_row redact (some partner) sources (rows table)
    ≡ rows ((codes "a", legitimate_interest) ∷ [])
unfolding after_passports
seen = refl

-- One object of a passport without a grant is not redacted for a partner.
seen_alone :
    after_passports ops hash_of_row redact (some partner) sources (one (codes "b", authority))
    ≡ one (codes "b", authority)
unfolding after_passports
seen_alone = refl

after_passports-Shown_example :
    All
      (Shown ops hash_of_row redact (some partner) sources table)
      ((codes "a", legitimate_interest) ∷ [])
after_passports-Shown_example =
    after_passports-Shown ops hash_of_row redact (some partner) sources table
      ((codes "a", legitimate_interest) ∷ []) seen

abbrev battery : ChildSpec
battery = record { min_level = none; authority_columns = codes "supplierName" ∷ [] }

abbrev recycler : User
recycler = record { id = codes "r"; has_role = text_eq (codes "recycler") }

abbrev ordered : Node
ordered = object (
    prop (codes "orderBy")
      (array (
        node
          (object
            (prop (codes "ref") (array (node (text (codes "supplierName")) no_nodes)) no_props))
          no_nodes))
      no_props)

gates :
    (before_child ops battery none ordered ≡ nothing)
    × (before_child ops battery (some recycler) ordered ≡ rejected (codes "supplierName"))
    × (before_child ops battery (some recycler) falsy ≡ goes_on)
unfolding before_child
gates = (refl, refl, refl)

before_child-goes_on_iff_example : (before_child ops battery (some recycler) ordered ≡ goes_on) ↔ (
    (ltb (ops.rank (local_level_of (some recycler))) (ops.rank (min_level_of battery)) ≡ false)
    × ((local_level_of (some recycler) ≡ authority)
        ⊎ All (λ c. Uses c (props_of ordered) → ⊥) battery.authority_columns))
before_child-goes_on_iff_example = before_child-goes_on_iff ops battery (some recycler) ordered

abbrev grantee_id_for : Text → Text
grantee_id_for d = codes "0x"

abbrev asked : Registration
asked = record { did = some (codes " did:q "); name = none; role = none; secret = some (codes "s") }

abbrev old_partner : Partner
old_partner = record {
  did = codes "did:p";
  name = none;
  role = recycler_role;
  grantee_id = codes "g";
  secret = codes "t";
}

abbrev new_one : Registered
new_one = record { did = codes "did:q"; name = none; role = recycler_role; grantee_id = codes "0x" }

abbrev registry : Registry
registry = record { partners = old_partner ∷ []; identities = [] }

registered : (register_partner grantee_id_for asked registry).0 ≡ ok new_one
unfolding register_partner
registered = refl

not_twice :
    register_partner grantee_id_for (record asked { did = some (codes "did:p") }) registry
    ≡ (err already_registered, registry)
unfolding register_partner
not_twice = refl

register_partner-Distinct_example :
    Distinct (λ p. p.did) (register_partner grantee_id_for asked registry).1.partners
    × ((p : Partner)
        → Among p registry.partners
        → Among p (register_partner grantee_id_for asked registry).1.partners)
register_partner-Distinct_example = register_partner-Distinct grantee_id_for asked registry (tt, tt)

apart : text_eq new_one.did (codes "anonymous") ≡ false
unfolding text_eq
apart = refl

-- A row of another network, whose peer says that it is verified.
abbrev far : AnchoredRow
far = record {
  id = codes "1";
  passport_id = codes "p";
  payload_hash = some (codes "0xaa");
  contract_address = some (codes "bb");
  anchor_network = some (codes "preview");
  attestation_tx_hash = none;
  status = none;
  attester_id = none;
  passport_id_hash = none;
}

abbrev env : Text → Option Text
env name =
    if text_eq name (codes "PASSPORT_VERIFY_PEERS")
    then some (codes "preview=https://peer")
    else none

abbrev cfg : Config
cfg = record {
  network = some (codes "preprod");
  crawler_enabled = none;
  crawlerless_chain_confirm = none;
}

abbrev peer : Text → Text → Option PeerAnswer
peer base id =
    some (record { verified = text_eq base (codes "https://peer"); checked_network = none })

abbrev reported : Verification
reported = record {
  row = far;
  check = record {
    verified = true;
    checked_network = some (codes "preview");
    attester_id = none;
    binding_registered = none;
  };
  payload_hash = some (codes "aa");
  contract_address = some (codes "bb");
  server_network = codes "preprod";
  explorer_url = none;
}
