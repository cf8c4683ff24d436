-- ===== src/PassportAnchor/Network.antt =====
-- Which network the server runs on, whether chain outcomes can be known, and the maps of peers.
-- The configuration (cds.env) is a record, the environment a function.
pub mod Peers
mod Tests
use nightpass.Base.{
  ℕ, Bool, true, false, not, ◌||◌, List, [], ◌∷◌, ◌++◌, Option, none, some, Text, codes, lower,
  is_empty, text_eq, truthy, strip_0x, or_else, ◌==◌, if◌then◌else◌, Result, ok, err, require,
  ◌>>=◌, ◌>>◌, is_hex32, text_or_empty,
}
use nightpass.Base.Splits.{trim, split_on, drop_end, Env, variable}
use nightpass.Base.Maps.{TextMap, insert}

-- `cds.requires.nightgate`, as far as it is read.
pub record Config : Type 0 where
  pub network : Option Text
  pub crawler_enabled : Option Bool
  pub crawlerless_chain_confirm : Option Bool

-- `a || d`
abbrev pub or_default : Option Text → Text → Text
or_default o d = or_else (truthy o) d

unfoldable pub effective_network : Env → Config → Text
effective_network env cfg =
    or_else (variable env (codes "NIGHTGATE_NETWORK")) (or_default cfg.network (codes "preprod"))

-- /^(false|0|no|off)$/i
unfoldable pub reads_off : Text → Bool
unfolding text_eq lower
reads_off s =
    text_eq (lower s) (codes "false")
    || text_eq s (codes "0")
    || text_eq (lower s) (codes "no")
    || text_eq (lower s) (codes "off")

-- A switch: the variable if it is set, and `otherwise` if not.
abbrev pub switch : Option Text → Bool → Bool
switch none otherwise = otherwise
switch (some s) otherwise = not (reads_off s)

unfoldable pub crawler_enabled : Env → Config → Bool
crawler_enabled env cfg =
    switch (variable env (codes "NIGHTGATE_CRAWLER_ENABLED")) (or_else cfg.crawler_enabled false)

unfoldable pub chain_confirmation_available : Env → Config → Bool
unfolding crawler_enabled
chain_confirmation_available env cfg =
    if crawler_enabled env cfg
    then true
    else switch (variable env (codes "NIGHTGATE_CRAWLERLESS_CHAIN_CONFIRM"))
        (or_else cfg.crawlerless_chain_confirm true)

abbrev pub tx_url : Text → Text → Text
tx_url hash net =
    codes "https://" ++ (net ++ (codes ".midnightexplorer.com/transactions/0x" ++ strip_0x hash))

unfoldable pub explorer_tx_url : Env → Config → Option Text → Option Text → Option Text
explorer_tx_url env cfg hash network = elim (truthy hash) [
  | none ↦ none
  | some h ↦ some (tx_url h (or_default network (effective_network env cfg)))
]

-- The text in front of the first `b` and the text behind it, if there is one.
unfoldable pub cut : ℕ → Text → Option (Text × Text)
cut b [] = none
cut b (c ∷ s) =
    let rest = cut b s in
    if c == b then some ([], s) else elim rest [ none ↦ none | some p ↦ some (c ∷ p.0, p.1) ]

abbrev pub is_slash : ℕ → Bool
is_slash c = c == b'/'

-- A network and its address, if both are left after trimming.
unfoldable pub net_entry : Text → Text → Option (Text × Text)
unfolding trim drop_end
net_entry net base =
    let n = trim net in
    let b = drop_end is_slash (trim base) in
    if is_empty net || is_empty n || is_empty b then none else some (n, b)

unfoldable pub part_entry : Text → Option (Text × Text)
unfolding cut net_entry
part_entry part = elim (cut b'=' part) [ none ↦ none | some p ↦ net_entry p.0 p.1 ]

-- The loop over the parts.
unfoldable pub add_parts : List Text → TextMap Text → TextMap Text
unfolding part_entry insert
add_parts [] out = out
add_parts (part ∷ parts) out = elim (part_entry part) [
  | none ↦ add_parts parts out
  | some e ↦ add_parts parts (insert e.0 e.1 out)
]

unfoldable pub parse_net_map : Option Text → TextMap Text
unfolding add_parts split_on
parse_net_map value = add_parts (split_on b',' (text_or_empty value)) []

unfoldable pub verify_peers : Env → TextMap Text
unfolding parse_net_map
verify_peers env = parse_net_map (env (codes "PASSPORT_VERIFY_PEERS"))

unfoldable pub explorer_links : Env → TextMap Text
unfolding parse_net_map
explorer_links env = parse_net_map (env (codes "PASSPORT_EXPLORER_LINKS"))

unfoldable pub passport_sources : Env → TextMap Text
unfolding parse_net_map
passport_sources env = parse_net_map (env (codes "PASSPORT_SOURCES"))

pub data KeyError : Type 0 where
  bad_attester bad_payload bad_master_key : KeyError

-- The vault's `recordKey` is a parameter, on the hex of its bytes.
unfoldable pub record_key_for :
    (Text → Text → Text) → Option Text → Option Text → Result KeyError Text
unfolding is_hex32 strip_0x
record_key_for record_key attester_id payload_hash = do
  require (is_hex32 (strip_0x (text_or_empty attester_id))) bad_attester
  require (is_hex32 (strip_0x (text_or_empty payload_hash))) bad_payload
  ok (record_key (strip_0x (text_or_empty attester_id)) (strip_0x (text_or_empty payload_hash)))

-- The hex of the master key; masterKeyFromHex of the SDK reads it.
unfoldable pub encryption_master_key : Env → Result KeyError Text
unfolding is_hex32
encryption_master_key env = do
  require (is_hex32 (trim (text_or_empty (env (codes "ENCRYPTION_KEY"))))) bad_master_key
  ok (trim (text_or_empty (env (codes "ENCRYPTION_KEY"))))
