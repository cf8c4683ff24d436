-- ===== src/PassportService/Partners/Claimed.antt =====
-- A partner's name is claimed once, and its reads find the grantee that it is bound to.
use nightpass.Base.{
  ◌≡◌, ◌≢◌, ◌⊎◌, inl, inr, refl, arith, Bool, true, false, not, ◌&&◌, List, [], ◌∷◌, ◌++◌, some,
  Text, codes, text_eq, text_eq_refl, text_or_empty, is_empty, Among, Distinct, Bool-cases,
  if◌then◌else◌, Result, ok, is_ok, and-eq-true_iff,
}
use nightpass.Base.Members.{Distinct-snoc, Among-snoc}
use nightpass.Base.Splits.{trim}
use nightpass.PassportService.{Identity, grantees_in, grantees_of}
use nightpass.PassportService.Partners.{
  Partner, Registered, answer_to, PartnerError, Registry, Registration, is_registered, is_bound,
  bind, new_partner, register_partner,
}

bind-Among :
    (d grantee : Text) (rows : List Identity)
    → is_empty grantee ≡ false
    → Among grantee (grantees_in d (bind d grantee rows))
unfolding bind grantees_in
bind-Among d grantee [] h = rw (text_eq_refl d, h) (inl refl)
bind-Among d grantee (i ∷ rows) h = elim (Bool-cases (is_bound d i)) [
  | inl e ↦
      let (mine, unscoped) = (and-eq-true_iff (text_eq i.user_id d) (not i.scoped)).0 e in
      rw (e, mine, h) (inl refl)
  | inr e ↦
      rw e
        (later (text_eq i.user_id d && not (is_empty i.grantee_id)) (bind-Among d grantee rows h))
]
  where
    later :
        (b : Bool)
        → Among grantee (grantees_in d (bind d grantee rows))
        → Among grantee (
            if b
            then i.grantee_id ∷ grantees_in d (bind d grantee rows)
            else grantees_in d (bind d grantee rows))
    later true member = inr member
    later false member = member

ok_fails : true ≢ false
ok_fails h = ground arith

module _ (grantee_id_for : Text → Text) where
  abbrev name_of : Registration → Text
  name_of asked = trim (text_or_empty asked.did)

  -- Nothing changes, or the name is new, and the partner is added and bound.
  abbrev Added : Registration → Registry → Result PartnerError Registered × Registry → Type 0
  Added asked s (r, t) =
      (is_registered (name_of asked) s.partners ≡ false)
      × (is_empty (name_of asked) ≡ false)
      × (r ≡ ok (answer_to grantee_id_for asked (name_of asked)))
      × (t.partners ≡ s.partners ++ (new_partner grantee_id_for asked (name_of asked) ∷ []))
      × (t.identities ≡ bind (name_of asked) (grantee_id_for (name_of asked)) s.identities)

  register_partner-cases :
      (asked : Registration) (s : Registry)
      → (((register_partner grantee_id_for asked s).1 ≡ s)
          × (is_ok (register_partner grantee_id_for asked s).0 ≡ false))
        ⊎ Added asked s (register_partner grantee_id_for asked s)
  unfolding register_partner
  register_partner-cases asked s = ground arith

  -- Whatever is asked for, no two partners come to have one name, and a partner that was registered stays
  -- as it was, its secret included.
  pub register_partner-Distinct :
      (asked : Registration) (s : Registry)
      → Distinct (λ p. p.did) s.partners
      → Distinct (λ p. p.did) (register_partner grantee_id_for asked s).1.partners
        × ((p : Partner)
            → Among p s.partners
            → Among p (register_partner grantee_id_for asked s).1.partners)
  register_partner-Distinct asked s d = elim (register_partner-cases asked s) [
    | inl (same, failing) ↦ rw same (d, λ p member. member)
    | inr (fresh, named, answered, added, bound) ↦ rw added (
      Distinct-snoc (λ p. p.did) (new_partner grantee_id_for asked (name_of asked)) s.partners fresh
          d,
      λ p member. Among-snoc p _ s.partners member,
    )
  ]

  -- A partner that was registered, and whose name is not `anonymous` and has a grantee, reads as that grantee.
  pub register_partner-granted :
      (asked : Registration) (s : Registry) (p : Registered) (has_role : Text → Bool)
      → (register_partner grantee_id_for asked s).0 ≡ ok p
      → text_eq p.did (codes "anonymous") ≡ false
      → is_empty p.grantee_id ≡ false
      → Among p.grantee_id (
          grantees_of
            (some (record { id = p.did; has_role = has_role }))
            (some (register_partner grantee_id_for asked s).1.identities))
  unfolding grantees_of
  register_partner-granted asked s p has_role h other granted =
      elim (register_partner-cases asked s) [
        | inl (same, failing) ↦ absurd (ok_fails (rw h at failing))
        | inr (fresh, named, answered, added, bound) ↦
            let one : p ≡ answer_to grantee_id_for asked (name_of asked) = cc in
            let called : p.did ≡ name_of asked = rw one refl in
            let own : p.grantee_id ≡ grantee_id_for (name_of asked) = rw one refl in
            let nonempty : is_empty p.did ≡ false = rw called named in
            rw (nonempty, other, bound, own, called)
              (bind-Among (name_of asked) (grantee_id_for (name_of asked)) s.identities
                (rw own at granted))
      ]
