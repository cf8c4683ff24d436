-- ===== src/QueryGuard/Occurs.antt =====
-- Where a query refers to a column, by the keys on the way to the reference, and that the guard finds
-- exactly the references in a computed place.
use nightpass.Base.{
  ◌≡◌, ◌↔◌, ◌⊎◌, inl, inr, refl, sym, arith, Bool, true, false, ◌&&◌, List, [], ◌∷◌, some, Text,
  codes, text_eq, text_eq_iff, any, Among, Bool-cases,
}
use nightpass.QueryGuard.{
  Node, falsy, scalar, text, array, object, Nodes, node, no_nodes, Props, prop_of, is_truthy,
  is_bare, path_of, last_column, keeps_projection, probing_refs,
}
use nightpass.QueryGuard.Probes.{
  In, Has, Probes, by_path, in_array, in_object, probing_refs-Probes_iff,
}

-- The path ends in the column.
pub data EndsIn : Text → Nodes → Type 0 where
  at_end : {c : Text} → EndsIn c (node (text c) no_nodes)
  further : {c : Text} {n : Node} {ns : Nodes} → EndsIn c ns → EndsIn c (node n ns)

-- The properties have a path in `ref`, which ends in the column.
abbrev pub RefersTo : Text → Props → Type 0
RefersTo c rs = (path : Nodes) × (prop_of (codes "ref") rs ≡ array path) × EndsIn c path

-- In the tree, below the keys, an object with the properties refers to the column. What stands in a
-- path itself is no occurrence.
pub data Occurs : Text → List Text → Props → Node → Type 0 where
  here : {c : Text} {rs : Props} → RefersTo c rs → Occurs c [] rs (object rs)
  in_item :
      {c : Text} {keys : List Text} {rs : Props} {n : Node} {ns : Nodes}
      → In n ns
      → Occurs c keys rs n
      → Occurs c keys rs (array ns)
  in_value :
      {c key : Text} {keys : List Text} {rs : Props} {value : Node} {ps : Props}
      → Has key value ps
      → text_eq key (codes "ref") ≡ false
      → Occurs c keys rs value
      → Occurs c (key ∷ keys) rs (object ps)

-- The reference is part of a function or of an expression: it stands below a function's arguments or an
-- expression, or is one itself.
abbrev pub Computed : List Text → Props → Type 0
Computed keys rs =
    Among (codes "func") keys
    ⊎ Among (codes "xpr") keys
    ⊎ Among (codes "args") keys
    ⊎ (is_truthy (prop_of (codes "func") rs) ≡ true)
    ⊎ (is_truthy (prop_of (codes "xpr") rs) ≡ true)

-- A reference counts if it is no part of a projection, or is computed.
abbrev pub Counts : Bool → List Text → Props → Type 0
Counts p keys rs = (p ≡ false) ⊎ Computed keys rs

last_column-EndsIn : (c : Text) (ns : Nodes) → last_column ns ≡ some c → EndsIn c ns
last_column-EndsIn c no_nodes h = absurd (cc)
last_column-EndsIn c (node (text d) no_nodes) h = let same : d ≡ c = cc in rw same at_end
last_column-EndsIn c (node falsy no_nodes) h = absurd (cc)
last_column-EndsIn c (node scalar no_nodes) h = absurd (cc)
last_column-EndsIn c (node (array ns) no_nodes) h = absurd (cc)
last_column-EndsIn c (node (object ps) no_nodes) h = absurd (cc)
last_column-EndsIn c (node n (node m ns)) h = further (last_column-EndsIn c (node m ns) h)

EndsIn-last_column : (c : Text) (ns : Nodes) → EndsIn c ns → last_column ns ≡ some c
EndsIn-last_column c no_nodes e = elim e [ ]
EndsIn-last_column c (node _ no_nodes) at_end = refl
EndsIn-last_column c (node n no_nodes) (further e) = elim e [ ]
EndsIn-last_column c (node n (node m ns)) (further e) = EndsIn-last_column c (node m ns) e

path_of-array : (n : Node) (path : Nodes) → path_of n ≡ some path → n ≡ array path
path_of-array falsy path h = absurd (cc)
path_of-array scalar path h = absurd (cc)
path_of-array (text s) path h = absurd (cc)
path_of-array (array ns) path h = let same : ns ≡ path = cc in rw same refl
path_of-array (object ps) path h = absurd (cc)

-- The exemption ends at one of the three keys.
keeps_projection-cases :
    (key : Text)
    → keeps_projection key ≡ false
    → (codes "func" ≡ key) ⊎ (codes "xpr" ≡ key) ⊎ (codes "args" ≡ key)
unfolding keeps_projection
keeps_projection-cases key h = elim (Bool-cases (text_eq key (codes "func"))) [
  | inl e ↦ inl (sym ((text_eq_iff key (codes "func")).0 e))
  | inr e ↦ elim (Bool-cases (text_eq key (codes "xpr"))) [
    | inl f ↦ inr (inl (sym ((text_eq_iff key (codes "xpr")).0 f)))
    | inr f ↦ inr (inr (sym ((text_eq_iff key (codes "args")).0 (ground arith))))
  ]
]

keeps_projection-func : keeps_projection (codes "func") ≡ false
unfolding keeps_projection text_eq
keeps_projection-func = refl

keeps_projection-xpr : keeps_projection (codes "xpr") ≡ false
unfolding keeps_projection text_eq
keeps_projection-xpr = refl

keeps_projection-args : keeps_projection (codes "args") ≡ false
unfolding keeps_projection text_eq
keeps_projection-args = refl

Computed-below :
    (key : Text) (keys : List Text) (rs : Props) → Computed keys rs → Computed (key ∷ keys) rs
Computed-below key keys rs (inl h) = inl (inr h)
Computed-below key keys rs (inr (inl h)) = inr (inl (inr h))
Computed-below key keys rs (inr (inr (inl h))) = inr (inr (inl (inr h)))
Computed-below key keys rs (inr (inr (inr h))) = inr (inr (inr h))

Computed-key :
    (key : Text) (keys : List Text) (rs : Props)
    → keeps_projection key ≡ false
    → Computed (key ∷ keys) rs
Computed-key key keys rs h = elim (keeps_projection-cases key h) [
  | inl e ↦ inl (inl e)
  | inr rest ↦ elim rest [ inl e ↦ inr (inl (inl e)) | inr e ↦ inr (inr (inl (inl e))) ]
]

-- Above the value, what counts below the key.
Counts-above :
    (p : Bool) (key : Text) (keys : List Text) (rs : Props)
    → Counts (p && keeps_projection key) keys rs
    → Counts p (key ∷ keys) rs
Counts-above false key keys rs h = inl refl
Counts-above true key keys rs (inl h) = inr (Computed-key key keys rs h)
Counts-above true key keys rs (inr h) = inr (Computed-below key keys rs h)

Counts-below :
    (p : Bool) (key : Text) (keys : List Text) (rs : Props)
    → Counts p (key ∷ keys) rs
    → Counts (p && keeps_projection key) keys rs
Counts-below p key keys rs (inl e) = inl (rw e refl)
Counts-below p key keys rs (inr (inl (inl e))) =
    inl (rw (← e) (rw keeps_projection-func (ground arith)))
Counts-below p key keys rs (inr (inl (inr h))) = inr (inl h)
Counts-below p key keys rs (inr (inr (inl (inl e)))) =
    inl (rw (← e) (rw keeps_projection-xpr (ground arith)))
Counts-below p key keys rs (inr (inr (inl (inr h)))) = inr (inr (inl h))
Counts-below p key keys rs (inr (inr (inr (inl (inl e))))) =
    inl (rw (← e) (rw keeps_projection-args (ground arith)))
Counts-below p key keys rs (inr (inr (inr (inl (inr h))))) = inr (inr (inr (inl h)))
Counts-below p key keys rs (inr (inr (inr (inr h)))) = inr (inr (inr (inr h)))

Probes-Occurs :
    (c : Text) (p : Bool) (n : Node)
    → Probes c p n
    → (keys : List Text) × (rs : Props) × Occurs c keys rs n × Counts p keys rs
Probes-Occurs c p falsy d = elim d [ ]
Probes-Occurs c p scalar d = elim d [ ]
Probes-Occurs c p (text s) d = elim d [ ]
Probes-Occurs c p (object ps) (by_path {path} e on last) =
    ([], ps, here (path, path_of-array _ path e, last_column-EndsIn c path last), counts p on)
  where
    counts : (q : Bool) → (q && is_bare ps) ≡ false → Counts q [] ps
    counts false h = inl refl
    counts true h = elim (Bool-cases (is_truthy (prop_of (codes "func") ps))) [
      | inl f ↦ inr (inr (inr (inr (inl f))))
      | inr f ↦ inr (inr (inr (inr (inr (ground arith)))))
    ]
Probes-Occurs c p (array ns) (in_array {n} member d) =
    let (keys, rs, occ, counts) = Probes-Occurs c p n d in (keys, rs, in_item member occ, counts)
Probes-Occurs c p (object ps) (in_object {key} {value} has other d) =
    let (keys, rs, occ, counts) = Probes-Occurs c (p && keeps_projection key) value d in
    (key ∷ keys, rs, in_value has other occ, Counts-above p key keys rs counts)

Occurs-Probes :
    (c : Text) (p : Bool) (keys : List Text) (rs : Props) (n : Node)
    → Occurs c keys rs n
    → Counts p keys rs
    → Probes c p n
Occurs-Probes c p keys rs falsy occ counts = elim occ [ ]
Occurs-Probes c p keys rs scalar occ counts = elim occ [ ]
Occurs-Probes c p keys rs (text s) occ counts = elim occ [ ]
Occurs-Probes c p keys rs (object _) (here (path, e, ends)) counts =
    by_path {path = path} (rw e refl) (bare counts) (EndsIn-last_column c path ends)
  where
    bare : Counts p [] rs → (p && is_bare rs) ≡ false
    bare (inl f) = ground arith
    bare (inr (inl h)) = absurd h
    bare (inr (inr (inl h))) = absurd h
    bare (inr (inr (inr (inl h)))) = absurd h
    bare (inr (inr (inr (inr (inl f))))) = ground arith
    bare (inr (inr (inr (inr (inr f))))) = ground arith
Occurs-Probes c p keys rs (array ns) (in_item {n} member occ) counts =
    in_array member (Occurs-Probes c p keys rs n occ counts)
Occurs-Probes c p keys rs (object ps) (in_value {key} {keys = below} {value} has other occ) counts =
    in_object has other (
      Occurs-Probes c (p && keeps_projection key) below rs value occ
        (Counts-below p key below rs counts))

-- A column counts somewhere in the tree.
abbrev pub Referred : Text → Bool → Node → Type 0
Referred c p n = (keys : List Text) × (rs : Props) × Occurs c keys rs n × Counts p keys rs

-- The columns that are collected are exactly those that end a path somewhere in the tree but in a path's own
-- segments; in a projection only those where the reference stands below a key `func`, `xpr` or `args` or is itself
-- a function or an expression. Any other reference of a projection is exempt, at whatever depth.
pub probing_refs-Referred_iff :
    (c : Text) (p : Bool) (n : Node) → (any (text_eq c) (probing_refs p n) ≡ true) ↔ Referred c p n
probing_refs-Referred_iff c p n =
    let (to, from) = probing_refs-Probes_iff c p n in
    (
      λ h. Probes-Occurs c p n (to h),
      λ (keys, rs, occ, counts). from (Occurs-Probes c p keys rs n occ counts),
    )
