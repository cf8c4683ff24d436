-- ===== src/PassportService/Reads/Gates.antt =====
-- What stands before the reads of child entities, of attributes and of passports.
use nightpass.Base.{
  ◌≡◌, ◌⊎◌, ◌↔◌, inl, inr, arith, Bool, true, false, List, [], ◌∷◌, any, any-append, All, Option,
  none, some, Text, codes, text_eq_refl, ltb, Bool-cases, if◌then◌else◌,
}
use nightpass.QueryGuard.{Node, props_of, restricted_probe}
use nightpass.QueryGuard.Restricted.{Uses, restricted_probe-none_iff}
use nightpass.PassportService.{
  AccessLevel, everyone, legitimate_interest, authority, LevelOps, User, local_level_of,
}
use nightpass.PassportService.Reads.{
  Column, ref, is_star, names, with_column, inject_columns, ChildSpec, min_level_of, nothing,
  goes_on, before_child, unless_authority,
}

gate-goes_on_iff :
    (b : Bool) (level : AccessLevel) (hit : Option Text)
    → ((if b then nothing else unless_authority level hit) ≡ goes_on)
      ↔ ((b ≡ false) × ((level ≡ authority) ⊎ (hit ≡ none)))
gate-goes_on_iff true level hit = ground arith
gate-goes_on_iff false authority hit = ground arith
gate-goes_on_iff false everyone none = ground arith
gate-goes_on_iff false everyone (some c) = ground arith
gate-goes_on_iff false legitimate_interest none = ground arith
gate-goes_on_iff false legitimate_interest (some c) = ground arith

-- A query for a child entity goes on exactly if the user has the entity's minimum level and is an authority
-- or uses no column for authorities: neither its where, orderBy, having or groupBy refers to one, nor its
-- columns within a function or an expression. Any other reference below the columns is let through.
pub before_child-goes_on_iff :
    (ops : LevelOps) (spec : ChildSpec) (user : Option User) (select : Node)
    → (before_child ops spec user select ≡ goes_on) ↔ (
        (ltb (ops.rank (local_level_of user)) (ops.rank (min_level_of spec)) ≡ false)
        × ((local_level_of user ≡ authority)
            ⊎ All (λ c. Uses c (props_of select) → ⊥) spec.authority_columns))
unfolding before_child
before_child-goes_on_iff ops spec user select =
    let probes = restricted_probe-none_iff select spec.authority_columns in
    let gate =
      gate-goes_on_iff (ltb (ops.rank (local_level_of user)) (ops.rank (min_level_of spec)))
        (local_level_of user) (restricted_probe select spec.authority_columns) in
    (
      λ h. let (high, free) = gate.0 h in (high, right probes.0 free),
      λ (high, free). gate.1 (high, right probes.1 free),
    )
  where
    right : {A B C : Type 0} → (A → B) → C ⊎ A → C ⊎ B
    right f (inl c) = inl c
    right f (inr a) = inr (f a)

any-with_column :
    (name : Text) (cols : List Column) → any (names name) (with_column name cols) ≡ true
any-with_column name cols =
    ground (arith, any-append (names name) cols (ref name ∷ []), text_eq_refl name)

any-with_column_keeps :
    (q : Column → Bool) (name : Text) (cols : List Column)
    → any q cols ≡ true
    → any q (with_column name cols) ≡ true
any-with_column_keeps q name cols h = ground (arith, any-append q cols (ref name ∷ []))

-- The columns of a read of passports come to have the row's hash and profile, unless all are read.
pub inject_columns-named :
    (cols out : List Column)
    → inject_columns (some cols) ≡ some out
    → (any is_star out ≡ true)
      ⊎ ((any (names (codes "payloadHash")) out ≡ true)
          × (any (names (codes "profile")) out ≡ true))
unfolding inject_columns
inject_columns-named cols out h = elim (Bool-cases (any is_star cols)) [
  | inl e ↦ let same : cols ≡ out = some-inj (rw e at h) in inl (rw (← same) e)
  | inr e ↦
      let same = some-inj (rw e at h) in
      inr (
        rw (← same) (
          any-with_column_keeps (names (codes "payloadHash")) (codes "profile")
              (with_column (codes "payloadHash") cols) (any-with_column (codes "payloadHash") cols),
          any-with_column (codes "profile") (with_column (codes "payloadHash") cols),
        ))
]
  where
    some-inj : {xs ys : List Column} → some xs ≡ some ys → xs ≡ ys
    some-inj k = cc
