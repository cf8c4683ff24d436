-- ===== src/PassportService/Networks.antt =====
-- On which network a record is read: its own, which is passed on where it is not the server's
-- (anchorNetwork, crossNetwork and checkedNetwork of the checks on the chain).
use nightpass.Base.{
  ◌≡◌, ◌≢◌, ap, inl, inr, refl, sym, ◌∙◌, arith, true, false, Option, none, some, Text, text_eq,
  text_eq_iff, truthy, or_else, Bool-cases, Option-cases, if◌then◌else◌,
}
use nightpass.Base.Splits.{Env}
use nightpass.PassportAnchor.Network.{Config, or_default, effective_network}

pub no_some : {A : Type 0} → {x : A} → some x ≢ none
no_some h = ground arith

pub some-inj : {A : Type 0} → {x y : A} → some x ≡ some y → x ≡ y
some-inj h = cc

pub not_false : false ≢ true
not_false h = ground arith

module _ (env : Env) (cfg : Config) where
  abbrev pub server_network : Text
  server_network = effective_network env cfg

  -- The network of a record, if it is not the server's.
  unfoldable pub foreign_of : Option Text → Option Text
  unfolding text_eq
  foreign_of anchor = elim (truthy anchor) [
    | none ↦ none
    | some n ↦ if text_eq n server_network then none else some n
  ]

  -- The network of a record, or the server's if it has none.
  abbrev pub network_of : Option Text → Text
  network_of anchor = or_default anchor server_network

  pub own_network :
      (anchor : Option Text) → foreign_of anchor ≡ none → network_of anchor ≡ server_network
  unfolding foreign_of
  own_network anchor h = elim (Option-cases (truthy anchor)) [
    | inl e ↦ rw e refl
    | inr (n, e) ↦ elim (Bool-cases (text_eq n server_network)) [
      | inl same ↦ rw e ((text_eq_iff n server_network).0 same)
      | inr differs ↦ absurd (no_some (rw (foreign_of, e, differs) at h))
    ]
  ]

  pub other_network :
      (anchor : Option Text) (n : Text)
      → foreign_of anchor ≡ some n
      → (truthy anchor ≡ some n) × (text_eq n server_network ≡ false)
  unfolding foreign_of
  other_network anchor n h = elim (Option-cases (truthy anchor)) [
    | inl e ↦ absurd (no_some (sym (rw (foreign_of, e) at h)))
    | inr (m, e) ↦ elim (Bool-cases (text_eq m server_network)) [
      | inl same ↦ absurd (no_some (sym (rw (foreign_of, e, same) at h)))
      | inr differs ↦
          let one : m ≡ n = some-inj (rw (foreign_of, e, differs) at h) in
          (e ∙ ap (λ x. some x) one, rw one at differs)
    ]
  ]

  -- The network that is read is the record's own.
  pub foreign_of-network :
      (anchor : Option Text) → or_else (foreign_of anchor) server_network ≡ network_of anchor
  foreign_of-network anchor = elim (Option-cases (foreign_of anchor)) [
    | inl e ↦ rw e (sym (own_network anchor e))
    | inr (n, e) ↦ rw (e, (other_network anchor n e).0) refl
  ]
