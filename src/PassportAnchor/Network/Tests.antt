-- ===== src/PassportAnchor/Network/Tests.antt =====
-- Configurations and maps of peers at concrete values.
use nightpass.Base.{
  ◌≡◌, refl, ap, true, false, not, ◌==◌, [], ◌∷◌, ◌++◌, none, some, Text, codes, lower, text_eq,
  strip_0x, join, is_hex32, ok, err, All, Distinct, Lacks-all,
}
use nightpass.Base.Splits.{trim, split_on, drop_end, Env, variable}
use nightpass.Base.Maps.{TextMap, lookup, insert}
use nightpass.Base.Patterns.{skip_spaces}
use nightpass.PassportAnchor.Network.{
  Config, effective_network, crawler_enabled, chain_confirmation_available, reads_off,
  explorer_tx_url, verify_peers, explorer_links, passport_sources, parse_net_map, add_parts,
  part_entry, net_entry, cut, record_key_for, encryption_master_key, bad_payload, bad_master_key,
}
use nightpass.PassportAnchor.Network.Peers.{Plain, print_net_map}

opened : Unit {0}
unfolding effective_network crawler_enabled chain_confirmation_available reads_off explorer_tx_url
    verify_peers explorer_links passport_sources parse_net_map add_parts part_entry net_entry cut
    variable trim drop_end skip_spaces split_on join text_eq lower strip_0x insert lookup is_hex32
    record_key_for encryption_master_key
opened = tt

abbrev cfg : Config
cfg = record { network = none; crawler_enabled = some false; crawlerless_chain_confirm = none }

-- Every variable is " off ".
abbrev off : Env
off name = some (codes " Off ")

abbrev unset : Env
unset name = none

abbrev peers : Env
peers name = some (codes " preprod = http://a/ ,=x,b,mainnet=https://c//")

abbrev two : TextMap Text
two = (codes "preprod", codes "http://a") ∷ (codes "mainnet", codes "https://c") ∷ []

abbrev id64 : Text
id64 = codes "0123456789abcdef0123456789abcdef0123456789abcdef0123456789abcdef"

runs :
    (effective_network off cfg ≡ codes "Off")
    × (effective_network unset cfg ≡ codes "preprod")
    × (crawler_enabled off (record cfg { crawler_enabled = some true }) ≡ false)
    × (chain_confirmation_available unset cfg ≡ true)
    × (chain_confirmation_available off cfg ≡ false)
    × (explorer_tx_url unset cfg (some (codes "0xab")) none
        ≡ some (codes "https://preprod.midnightexplorer.com/transactions/0xab"))
    × (verify_peers peers ≡ two)
    × (explorer_links peers ≡ two)
    × (passport_sources unset ≡ [])
    × (parse_net_map (some (print_net_map two)) ≡ two)
    × (record_key_for (λ a p. a) (some id64) (some id64) ≡ ok id64)
    × (record_key_for (λ a p. a) (some id64) none ≡ err bad_payload)
    × (encryption_master_key (λ k. some (codes " " ++ id64)) ≡ ok id64)
    × (encryption_master_key unset ≡ err bad_master_key)
unfolding opened
runs = (refl, refl, refl, refl, refl, refl, refl, refl, refl, refl, refl, refl, refl, refl)

two-Plain : All Plain two
unfolding opened
two-Plain = (
  record {
    net_trimmed = refl;
    base_trimmed = refl;
    no_slash = refl;
    net_given = refl;
    base_given = refl;
    no_equals = Lacks-all b'=' (λ c. not (c == b'=')) (codes "preprod") refl refl;
    net_no_comma = Lacks-all b',' (λ c. not (c == b',')) (codes "preprod") refl refl;
    base_no_comma = Lacks-all b',' (λ c. not (c == b',')) (codes "http://a") refl refl;
  },
  (
    record {
      net_trimmed = refl;
      base_trimmed = refl;
      no_slash = refl;
      net_given = refl;
      base_given = refl;
      no_equals = Lacks-all b'=' (λ c. not (c == b'=')) (codes "mainnet") refl refl;
      net_no_comma = Lacks-all b',' (λ c. not (c == b',')) (codes "mainnet") refl refl;
      base_no_comma = Lacks-all b',' (λ c. not (c == b',')) (codes "https://c") refl refl;
    },
    tt,
  ),
)

two-Distinct : Distinct (λ e. e.0) two
unfolding text_eq
two-Distinct =
    (((λ e. let off : false ≡ true = ap (text_eq (codes "mainnet")) e in cc off), tt), (tt, tt))
