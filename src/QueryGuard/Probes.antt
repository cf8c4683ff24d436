-- ===== src/QueryGuard/Probes.antt =====
-- Where a query probes a column, and that the guard finds exactly that.
use nightpass.Base.{
  ◌≡◌, ◌↔◌, ◌⊎◌, inl, inr, refl, sym, ◌∙◌, arith, Bool, true, false, ◌&&◌, ◌||◌, List, [], ◌++◌,
  Option, none, some, Text, codes, text_eq, text_eq_iff, text_eq_refl, any, any-append,
  if◌then◌else◌, Bool-cases, Option-cases,
}
use nightpass.QueryGuard.{
  Node, falsy, scalar, text, array, object, Nodes, no_nodes, node, Props, no_props, prop, prop_of,
  is_bare, path_of, last_column, as_list, own_column, keeps_projection, probing_refs, probing_nodes,
  probing_props,
}

pub data In : Node → Nodes → Type 0 where
  at_front : {n : Node} {ns : Nodes} → In n (node n ns)
  behind : {n m : Node} {ns : Nodes} → In n ns → In n (node m ns)

pub data Has : Text → Node → Props → Type 0 where
  at_front : {k : Text} {v : Node} {ps : Props} → Has k v (prop k v ps)
  behind : {k j : Text} {v w : Node} {ps : Props} → Has k v ps → Has k v (prop j w ps)

-- The column is referenced in the tree: by a path that ends in it, anywhere but in a path's own
-- segments, and where the exemption of a projection holds not by a bare reference.
pub data Probes : Text → Bool → Node → Type 0 where
  by_path :
      {c : Text} {p : Bool} {ps : Props} {path : Nodes}
      → path_of (prop_of (codes "ref") ps) ≡ some path
      → (p && is_bare ps) ≡ false
      → last_column path ≡ some c
      → Probes c p (object ps)
  in_array :
      {c : Text} {p : Bool} {n : Node} {ns : Nodes} → In n ns → Probes c p n → Probes c p (array ns)
  in_object :
      {c key : Text} {p : Bool} {value : Node} {ps : Props}
      → Has key value ps
      → text_eq key (codes "ref") ≡ false
      → Probes c (p && keeps_projection key) value
      → Probes c p (object ps)

own_column-elim :
    (c : Text) (p : Bool) (ps : Props)
    → any (text_eq c) (as_list (own_column p ps)) ≡ true
    → Probes c p (object ps)
unfolding own_column
own_column-elim c p ps h = elim (Option-cases (path_of (prop_of (codes "ref") ps))) [
  | inl e ↦ absurd (cc (rw (e, own_column) at h))
  | inr (path, e) ↦ elim (Bool-cases (p && is_bare ps)) [
    | inl exempt ↦ absurd (cc (rw (e, exempt, own_column) at h))
    | inr on ↦ by_path e on (found (last_column path) (rw (e, on, own_column) at h))
  ]
]
  where
    found : (o : Option Text) → any (text_eq c) (as_list o) ≡ true → o ≡ some c
    found none h = absurd (cc)
    found (some d) h = let same : c ≡ d = (text_eq_iff c d).0 (ground arith) in rw same refl

own_column-intro :
    (c : Text) (p : Bool) (ps : Props) (path : Nodes)
    → path_of (prop_of (codes "ref") ps) ≡ some path
    → (p && is_bare ps) ≡ false
    → last_column path ≡ some c
    → any (text_eq c) (as_list (own_column p ps)) ≡ true
unfolding own_column
own_column-intro c p ps path e on last =
    rw (e, on, last, own_column) (ground (arith, text_eq_refl c))

pub any-append_left :
    (c : Text) (xs ys : List Text) → any (text_eq c) xs ≡ true → any (text_eq c) (xs ++ ys) ≡ true
any-append_left c xs ys h = any-append (text_eq c) xs ys ∙ ground arith

pub any-append_right :
    (c : Text) (xs ys : List Text) → any (text_eq c) ys ≡ true → any (text_eq c) (xs ++ ys) ≡ true
any-append_right c xs ys h = any-append (text_eq c) xs ys ∙ ground arith

pub any-append-cases :
    (c : Text) (xs ys : List Text)
    → any (text_eq c) (xs ++ ys) ≡ true
    → (any (text_eq c) xs ≡ true) ⊎ (any (text_eq c) ys ≡ true)
any-append-cases c xs ys h =
    let either : (any (text_eq c) xs || any (text_eq c) ys) ≡ true =
      sym (any-append (text_eq c) xs ys) ∙ h in
    elim (Bool-cases (any (text_eq c) xs)) [ inl e ↦ inl e | inr e ↦ inr (ground arith) ]

mutual
  unfolding probing_refs

  probing_refs-elim :
      (c : Text) (p : Bool) (n : Node) → any (text_eq c) (probing_refs p n) ≡ true → Probes c p n
  probing_refs-elim c p falsy h = absurd (cc)
  probing_refs-elim c p scalar h = absurd (cc)
  probing_refs-elim c p (text s) h = absurd (cc)
  probing_refs-elim c p (array ns) h =
      let (n, member, d) = probing_nodes-elim c p ns h in in_array member d
  probing_refs-elim c p (object ps) h =
      elim (any-append-cases c (as_list (own_column p ps)) (probing_props p ps) h) [
        | inl here ↦ own_column-elim c p ps here
        | inr later ↦
            let (key, value, has, other, d) = probing_props-elim c p ps later in
            in_object has other d
      ]

  probing_nodes-elim :
      (c : Text) (p : Bool) (ns : Nodes)
      → any (text_eq c) (probing_nodes p ns) ≡ true
      → (n : Node) × In n ns × Probes c p n
  probing_nodes-elim c p no_nodes h = absurd (cc)
  probing_nodes-elim c p (node n ns) h =
      elim (any-append-cases c (probing_refs p n) (probing_nodes p ns) h) [
        | inl here ↦ (n, at_front, probing_refs-elim c p n here)
        | inr later ↦ let (m, member, d) = probing_nodes-elim c p ns later in (m, behind member, d)
      ]

  probing_props-elim :
      (c : Text) (p : Bool) (ps : Props)
      → any (text_eq c) (probing_props p ps) ≡ true
      → (key : Text) × (value : Node) × Has key value ps
        × (text_eq key (codes "ref") ≡ false)
        × Probes c (p && keeps_projection key) value
  probing_props-elim c p no_props h = absurd (cc)
  probing_props-elim c p (prop key value ps) h =
      let below = probing_refs (p && keeps_projection key) value in
      elim (any-append-cases c (if text_eq key (codes "ref") then [] else below)
        (probing_props p ps) h) [
          | inr later ↦
              let (k, v, has, other, d) = probing_props-elim c p ps later in
              (k, v, behind has, other, d)
          | inl here ↦ elim (Bool-cases (text_eq key (codes "ref"))) [
            | inl ref ↦ absurd (cc (rw ref at here))
            | inr other ↦ (
              key,
              value,
              at_front,
              other,
              probing_refs-elim c (p && keeps_projection key) value (rw other at here),
            )
          ]
        ]

In-nodes :
    (c : Text) (p : Bool) (n : Node) (ns : Nodes)
    → In n ns
    → any (text_eq c) (probing_refs p n) ≡ true
    → any (text_eq c) (probing_nodes p ns) ≡ true
unfolding probing_refs
In-nodes c p n no_nodes member h = elim member [ ]
In-nodes c p n (node _ ns) at_front h = any-append_left c (probing_refs p n) (probing_nodes p ns) h
In-nodes c p n (node m ns) (behind member) h =
    any-append_right c (probing_refs p m) (probing_nodes p ns) (In-nodes c p n ns member h)

Has-props :
    (c : Text) (p : Bool) (key : Text) (value : Node) (ps : Props)
    → Has key value ps
    → text_eq key (codes "ref") ≡ false
    → any (text_eq c) (probing_refs (p && keeps_projection key) value) ≡ true
    → any (text_eq c) (probing_props p ps) ≡ true
unfolding probing_refs
Has-props c p key value no_props has other h = elim has [ ]
Has-props c p key value (prop _ _ ps) at_front other h =
    rw other
      (any-append_left c (probing_refs (p && keeps_projection key) value) (probing_props p ps) h)
Has-props c p key value (prop k v ps) (behind has) other h =
    any-append_right c _ (probing_props p ps) (Has-props c p key value ps has other h)

probing_refs-intro :
    (c : Text) (p : Bool) (n : Node) → Probes c p n → any (text_eq c) (probing_refs p n) ≡ true
unfolding probing_refs
probing_refs-intro c p falsy d = elim d [ ]
probing_refs-intro c p scalar d = elim d [ ]
probing_refs-intro c p (text s) d = elim d [ ]
probing_refs-intro c p (object ps) (by_path {path} e on last) =
    any-append_left c (as_list (own_column p ps)) (probing_props p ps)
      (own_column-intro c p ps path e on last)
probing_refs-intro c p (array ns) (in_array {n} member d) =
    In-nodes c p n ns member (probing_refs-intro c p n d)
probing_refs-intro c p (object ps) (in_object {key} {value} has other d) =
    any-append_right c (as_list (own_column p ps)) (probing_props p ps) (
      Has-props c p key value ps has other
        (probing_refs-intro c (p && keeps_projection key) value d))

-- The columns that are collected are those that the tree probes, by the flag of the code.
pub probing_refs-Probes_iff :
    (c : Text) (p : Bool) (n : Node) → (any (text_eq c) (probing_refs p n) ≡ true) ↔ Probes c p n
probing_refs-Probes_iff c p n = (probing_refs-elim c p n, probing_refs-intro c p n)
