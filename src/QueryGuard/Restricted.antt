-- ===== src/QueryGuard/Restricted.antt =====
-- Which queries the guard lets through, and a condition that it misses.
use nightpass.Base.{
  ◌≡◌, ◌↔◌, ◌⊎◌, inl, inr, refl, arith, Bool, true, false, List, [], ◌∷◌, ◌++◌, none, some, Text,
  codes, text_eq, text_eq_refl, any, find, Bool-cases, All,
}
use nightpass.QueryGuard.{
  Node, text, array, object, no_nodes, node, Props, no_props, prop, prop_of, own_column,
  keeps_projection, probing_refs, props_of, select_refs, restricted_probe,
}
use nightpass.QueryGuard.Probes.{any-append_left, any-append_right, any-append-cases}
use nightpass.QueryGuard.Occurs.{Occurs, Computed, Counts, probing_refs-Referred_iff}

-- Somewhere in the tree, an object refers to the column.
abbrev pub Mentioned : Text → Node → Type 0
Mentioned c n = (keys : List Text) × (rs : Props) × Occurs c keys rs n

-- In the tree, a function or an expression refers to the column.
abbrev pub ComputedIn : Text → Node → Type 0
ComputedIn c n = (keys : List Text) × (rs : Props) × Occurs c keys rs n × Computed keys rs

-- A SELECT uses a column: its columns compute with it, or one of the four other parts mentions it.
abbrev pub Uses : Text → Props → Type 0
Uses c s =
    ComputedIn c (prop_of (codes "columns") s)
    ⊎ Mentioned c (prop_of (codes "where") s)
    ⊎ Mentioned c (prop_of (codes "orderBy") s)
    ⊎ Mentioned c (prop_of (codes "having") s)
    ⊎ Mentioned c (prop_of (codes "groupBy") s)

probing_refs-ComputedIn :
    (c : Text) (n : Node) → (any (text_eq c) (probing_refs true n) ≡ true) ↔ ComputedIn c n
probing_refs-ComputedIn c n =
    let (to, from) = probing_refs-Referred_iff c true n in
    (
      λ h. let (keys, rs, occ, counts) = to h in (keys, rs, occ, only keys rs counts),
      λ (keys, rs, occ, computed). from (keys, rs, occ, inr computed),
    )
  where
    only : (keys : List Text) (rs : Props) → Counts true keys rs → Computed keys rs
    only keys rs (inl e) = absurd (cc)
    only keys rs (inr h) = h

probing_refs-Mentioned :
    (c : Text) (n : Node) → (any (text_eq c) (probing_refs false n) ≡ true) ↔ Mentioned c n
probing_refs-Mentioned c n =
    let (to, from) = probing_refs-Referred_iff c false n in
    (
      λ h. let (keys, rs, occ, _) = to h in (keys, rs, occ),
      λ (keys, rs, occ). from (keys, rs, occ, inl refl),
    )

append_iff :
    {P Q : Type 0} (c : Text) (xs ys : List Text)
    → (any (text_eq c) xs ≡ true) ↔ P
    → (any (text_eq c) ys ≡ true) ↔ Q
    → (any (text_eq c) (xs ++ ys) ≡ true) ↔ (P ⊎ Q)
append_iff c xs ys left right = (
  (λ h. elim (any-append-cases c xs ys h) [ inl e ↦ inl (left.0 e) | inr e ↦ inr (right.0 e) ]),
  λ h. elim h [
    | inl a ↦ any-append_left c xs ys (left.1 a)
    | inr b ↦ any-append_right c xs ys (right.1 b)
  ],
)

select_refs_iff : (c : Text) (s : Props) → (any (text_eq c) (select_refs s) ≡ true) ↔ Uses c s
unfolding select_refs
select_refs_iff c s =
    let part = λ (key : Text). probing_refs-Mentioned c (prop_of key s) in
    append_iff c _ _ (probing_refs-ComputedIn c (prop_of (codes "columns") s)) (
      append_iff c _ _ (part (codes "where")) (
        append_iff c _ _ (part (codes "orderBy"))
          (append_iff c _ _ (part (codes "having")) (part (codes "groupBy")))))

module _ (p : Text → Bool) (P : Text → Type 0) (decides : (c : Text) → (p c ≡ true) ↔ P c) where
  find-none_iff : (cs : List Text) → (find p cs ≡ none) ↔ All (λ c. P c → ⊥) cs
  find-none_iff [] = ((λ h. tt), λ h. refl)
  find-none_iff (c ∷ cs) =
      let (there, back) = find-none_iff cs in
      elim (Bool-cases (p c)) [
        | inl e ↦
            ((λ h. absurd (cc (rw e at h))), λ (differs, h). absurd (differs ((decides c).0 e)))
        | inr e ↦ (
          (λ h. ((λ d. let on : p c ≡ true = (decides c).1 d in absurd (cc)), there (rw e at h))),
          λ (differs, h). rw e (back h),
        )
      ]

  find-some : (cs : List Text) (c : Text) → find p cs ≡ some c → (any (text_eq c) cs ≡ true) × P c
  find-some [] c h = absurd (cc)
  find-some (d ∷ cs) c h = elim (Bool-cases (p d)) [
    | inl e ↦
        let same : d ≡ c = cc (rw e at h) in
        (rw same (ground (arith, text_eq_refl c)), (decides c).0 (rw same at e))
    | inr e ↦ let (member, d') = find-some cs c (rw e at h) in (ground arith, d')
  ]

-- A query passes exactly if for no restricted column, its where, orderBy, having or groupBy refers to the column, or
-- its columns do within a function or an expression. Any other reference below the columns passes, also one in the
-- condition of an expanded association, and so does what stands in a path's own segments.
pub restricted_probe-none_iff :
    (select : Node) (restricted : List Text)
    → (restricted_probe select restricted ≡ none)
      ↔ All (λ c. Uses c (props_of select) → ⊥) restricted
unfolding restricted_probe
restricted_probe-none_iff select restricted =
    find-none_iff (λ c. any (text_eq c) (select_refs (props_of select)))
      (λ c. Uses c (props_of select)) (λ c. select_refs_iff c (props_of select)) restricted

-- A column that is reported is restricted and used.
pub restricted_probe-some :
    (select : Node) (restricted : List Text) (c : Text)
    → restricted_probe select restricted ≡ some c
    → (any (text_eq c) restricted ≡ true) × Uses c (props_of select)
unfolding restricted_probe
restricted_probe-some select restricted c h =
    find-some (λ c. any (text_eq c) (select_refs (props_of select))) (λ c. Uses c (props_of select))
      (λ c. select_refs_iff c (props_of select)) restricted c h

-- `{ref: [c]}`
abbrev pub reference : Text → Node
reference c = object (prop (codes "ref") (array (node (text c) no_nodes)) no_props)

-- `{ref: ['items'], where: [{ref: [c]}]}`
abbrev pub expanded : Text → Node
expanded c = object (
    prop (codes "ref") (array (node (text (codes "items")) no_nodes))
      (prop (codes "where") (array (node (reference c) no_nodes)) no_props))

-- `{columns: [column]}`
abbrev pub select_of : Node → Node
select_of column = object (prop (codes "columns") (array (node column no_nodes)) no_props)

-- A condition on a column of the projection, as an expanded association carries it, is not reported:
-- the exemption of a projection goes on below `where`.
pub restricted_probe-nested_where :
    (c : Text) (restricted : List Text)
    → restricted_probe (select_of (expanded c)) restricted ≡ none
unfolding restricted_probe select_refs prop_of probing_refs own_column keeps_projection text_eq
restricted_probe-nested_where c restricted = clean restricted
  where
    clean : (cs : List Text) → find (λ c. false) cs ≡ none
    clean [] = refl
    clean (c ∷ cs) = clean cs
