-- ===== src/QueryGuard/Tests.antt =====
-- The guard on concrete queries.
use nightpass.Base.{
  ◌≡◌, ◌↔◌, refl, true, false, List, [], ◌∷◌, none, some, Text, codes, text_eq, any, All,
}
use nightpass.QueryGuard.{
  Node, array, object, no_nodes, node, no_props, prop, text, scalar, prop_of, own_column,
  keeps_projection, probing_refs, select_refs, restricted_probe, props_of,
}
use nightpass.QueryGuard.Occurs.{Referred, probing_refs-Referred_iff}
use nightpass.QueryGuard.Restricted.{Uses, reference, select_of, restricted_probe-none_iff}

opened : Unit {0}
unfolding prop_of own_column keeps_projection probing_refs select_refs restricted_probe text_eq
opened = tt

abbrev co2 : Text
co2 = codes "co2"

-- `sum(co2)`
abbrev sum_of : Node
sum_of = object (
    prop (codes "func") (text (codes "sum"))
      (prop (codes "args") (array (node (reference co2) no_nodes)) no_props))

-- `{columns: [co2], where: [co2, '<', {val}]}`
abbrev filtered : Node
filtered = object (
    prop (codes "columns") (array (node (reference co2) no_nodes)) (
      prop (codes "where")
        (array (
          node (reference co2) (
            node (text (codes "<")) (node (object (prop (codes "val") scalar no_props)) no_nodes))))
        no_props))

abbrev restricted : List Text
restricted = codes "owner" ∷ co2 ∷ []

runs :
    (restricted_probe filtered restricted ≡ some co2)
    × (restricted_probe (select_of (reference co2)) restricted ≡ none)
    × (restricted_probe (select_of sum_of) restricted ≡ some co2)
    × (probing_refs false filtered ≡ (co2 ∷ co2 ∷ []))
    × (restricted_probe scalar restricted ≡ none)
unfolding opened
runs = (refl, refl, refl, refl, refl)

probing_refs-Referred_iff_example :
    (any (text_eq co2) (probing_refs true sum_of) ≡ true) ↔ Referred co2 true sum_of
probing_refs-Referred_iff_example = probing_refs-Referred_iff co2 true sum_of

restricted_probe-none_iff_example :
    (restricted_probe filtered restricted ≡ none)
    ↔ All (λ c. Uses c (props_of filtered) → ⊥) restricted
restricted_probe-none_iff_example = restricted_probe-none_iff filtered restricted
