-- ===== src/QueryGuard.antt =====
-- srv/lib/query-guard.ts: the columns that a CQN SELECT touches outside a plain projection. CQN is a
-- tree of arrays, objects with their own enumerable properties, and scalars. The set of columns is a
-- list in which they stand in the order they are met.
pub mod Probes
pub mod Occurs
pub mod Restricted
mod Tests
use nightpass.Base.{
  Bool, true, false, not, ◌&&◌, ◌||◌, List, [], ◌∷◌, ◌++◌, Option, none, some, Text, codes, text_eq,
  any, find, if◌then◌else◌,
}

-- `falsy` is null, undefined, false, 0, NaN and "", `scalar` any other value that is no text, array
-- or object.
mutual
  pub data Node : Type 0 where
    falsy : Node
    scalar : Node
    text : Text → Node
    array : Nodes → Node
    object : Props → Node

  pub data Nodes : Type 0 where
    no_nodes : Nodes
    node : Node → Nodes → Nodes

  pub data Props : Type 0 where
    no_props : Props
    prop : Text → Node → Props → Props

-- `n[key]`
unfoldable pub prop_of : Text → Props → Node
unfolding text_eq
prop_of key no_props = falsy
prop_of key (prop k v ps) = let rest = prop_of key ps in if text_eq k key then v else rest

abbrev pub is_truthy : Node → Bool
is_truthy falsy = false
is_truthy _ = true

abbrev pub column_of : Node → Option Text
column_of (text c) = some c
column_of _ = none

-- The last element of a path, if it is a string.
abbrev pub last_column : Nodes → Option Text
last_column no_nodes = none
last_column (node n no_nodes) = column_of n
last_column (node n (node m ns)) = last_column (node m ns)

abbrev pub as_list : Option Text → List Text
as_list none = []
as_list (some c) = c ∷ []

-- `!n.func && !n.xpr`
abbrev pub is_bare : Props → Bool
is_bare ps =
    not (is_truthy (prop_of (codes "func") ps)) && not (is_truthy (prop_of (codes "xpr") ps))

-- The path in `ref`, if that is an array.
abbrev pub path_of : Node → Option Nodes
path_of (array ns) = some ns
path_of _ = none

-- The column that the object itself names, unless it is a bare reference in a projection.
unfoldable pub own_column : Bool → Props → Option Text
unfolding prop_of
own_column in_projection ps = elim (path_of (prop_of (codes "ref") ps)) [
  | none ↦ none
  | some path ↦ if in_projection && is_bare ps then none else last_column path
]

-- Whether the exemption of a projection goes on below the key.
unfoldable pub keeps_projection : Text → Bool
unfolding text_eq
keeps_projection key =
    not (text_eq key (codes "func"))
    && not (text_eq key (codes "xpr"))
    && not (text_eq key (codes "args"))

unfoldable mutual
  unfolding own_column keeps_projection text_eq

  pub probing_refs : Bool → Node → List Text
  probing_refs in_projection (array ns) = probing_nodes in_projection ns
  probing_refs in_projection (object ps) =
      as_list (own_column in_projection ps) ++ probing_props in_projection ps
  probing_refs in_projection _ = []

  pub probing_nodes : Bool → Nodes → List Text
  probing_nodes in_projection no_nodes = []
  probing_nodes in_projection (node n ns) =
      probing_refs in_projection n ++ probing_nodes in_projection ns

  pub probing_props : Bool → Props → List Text
  probing_props in_projection no_props = []
  probing_props in_projection (prop key value ps) =
      let below = probing_refs (in_projection && keeps_projection key) value in
      (if text_eq key (codes "ref") then [] else below) ++ probing_props in_projection ps

-- The properties of an object; an array has none of those that are read.
abbrev pub props_of : Node → Props
props_of (object ps) = ps
props_of _ = no_props

unfoldable pub select_refs : Props → List Text
unfolding prop_of probing_refs
select_refs s =
    probing_refs true (prop_of (codes "columns") s)
    ++ (probing_refs false (prop_of (codes "where") s)
        ++ (probing_refs false (prop_of (codes "orderBy") s)
            ++ (probing_refs false (prop_of (codes "having") s)
                ++ probing_refs false (prop_of (codes "groupBy") s))))

unfoldable pub restricted_probe : Node → List Text → Option Text
unfolding select_refs text_eq
restricted_probe select restricted =
    find (λ c. any (text_eq c) (select_refs (props_of select))) restricted
