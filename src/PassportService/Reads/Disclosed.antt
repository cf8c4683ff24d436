-- ===== src/PassportService/Reads/Disclosed.antt =====
-- What the reads of passports show to whom.
use nightpass.Base.{
  ℕ, ◌≡◌, ◌≢◌, ◌⊎◌, inl, inr, refl, subst, arith, false, List, [], ◌∷◌, Option, none, some, Text,
  codes, is_empty, Among, All, Bool-cases,
}
use nightpass.PassportService.{
  AccessLevel, everyone, LevelOps, User, is_in_role, local_level_of, grantees_of,
}
use nightpass.PassportService.Grants.{rows_of}
use nightpass.PassportService.Grants.InForce.{OnChain, InLog}
use nightpass.PassportService.Grants.Latest.{effective_grants_for-InForce}
use nightpass.PassportService.Reads.{
  rows, grant_level, Sources, effective_of, keep_row, kept, after_passports,
}

-- A grant to the user, for the hash and at the level, is in force.
abbrev pub Granted : Option User → Sources → Option Text → ℕ → Type 0
Granted user src hashed n =
    (hash : Text) × (hashed ≡ some hash)
    × (OnChain (grantees_of user src.identities) (rows_of src.chain) hash n
        ⊎ InLog (grantees_of user src.identities) (rows_of src.log) src.passports hash n)

not_both : {n : ℕ} → none ≢ some n
not_both h = ground arith

grant_level-Granted :
    (user : Option User) (src : Sources) (hashed : Option Text) (n : ℕ)
    → grant_level (effective_of (grantees_of user src.identities) src) hashed ≡ some n
    → Granted user src hashed n
unfolding grant_level effective_of
grant_level-Granted user src hashed n h = of_grantees (grantees_of user src.identities) hashed h
  where
    of_grantees :
        (gs : List Text) (o : Option Text)
        → grant_level (effective_of gs src) o ≡ some n
        → (hash : Text) × (o ≡ some hash)
          × (OnChain gs (rows_of src.chain) hash n
              ⊎ InLog gs (rows_of src.log) src.passports hash n)
    of_grantees [] o q = ground arith
    of_grantees (g ∷ gs) none q = ground arith
    of_grantees (g ∷ gs) (some hash) q = elim (Bool-cases (is_empty hash)) [
      | inl e ↦ absurd (not_both (rw e at q))
      | inr e ↦ (
        hash,
        refl,
        effective_grants_for-InForce (g ∷ gs) src.chain src.log src.passports hash n (rw e at q),
      )
    ]

module _ {Row : Type 0} (ops : LevelOps) (hash_of_row : Row → Option Text)
    (redact : AccessLevel → Row → Row) where
  -- The row is one of the data, redacted: at the user's own level, which a partner has not, or at the
  -- higher of that and the level of a grant for it that is in force.
  abbrev pub Shown : Option User → Sources → List Row → Row → Type 0
  Shown user src rs shown =
      (row : Row) × Among row rs
      × (((is_in_role user (codes "partner") ≡ false)
            × (shown ≡ redact (ops.max_level (local_level_of user) everyone) row))
          ⊎ ((n : ℕ) × Granted user src (hash_of_row row) n
              × (shown ≡ redact (ops.max_level (local_level_of user) (ops.level_from_rank n)) row)))

  rows-inj : {xs ys : List Row} → rows xs ≡ rows ys → xs ≡ ys
  rows-inj h = cc

  keep_row-Shown :
      (user : Option User) (src : Sources) (all : List Row) (row : Row) (rest : List Row)
      (o : Option ℕ)
      → Among row all
      → grant_level (effective_of (grantees_of user src.identities) src) (hash_of_row row) ≡ o
      → All (Shown user src all) rest
      → All
          (Shown user src all)
          (keep_row ops redact (is_in_role user (codes "partner")) (local_level_of user) o row rest)
  keep_row-Shown user src all row rest none among h later =
      elim (Bool-cases (is_in_role user (codes "partner"))) [
        | inl e ↦ rw e later
        | inr e ↦ rw e ((row, among, inl (e, refl)), later)
      ]
  keep_row-Shown user src all row rest (some n) among h later =
      ((row, among, inr (n, grant_level-Granted user src (hash_of_row row) n h, refl)), later)

  kept-Shown :
      (user : Option User) (src : Sources) (all rs : List Row)
      → ((row : Row) → Among row rs → Among row all)
      → All (Shown user src all) (
          kept ops hash_of_row redact
            (is_in_role user (codes "partner"))
            (local_level_of user)
            (effective_of (grantees_of user src.identities) src)
            rs)
  unfolding kept
  kept-Shown user src all [] among = tt
  kept-Shown user src all (row ∷ rs) among =
      keep_row-Shown user src all row _ _ (among row (inl refl)) refl
        (kept-Shown user src all rs (λ r member. among r (inr member)))

  -- Of an array of passports a user is shown only rows of the data, redacted; a partner only those that a
  -- grant in force discloses, at its level or the user's own if that is higher.
  pub after_passports-Shown :
      (user : Option User) (src : Sources) (rs shown : List Row)
      → after_passports ops hash_of_row redact user src (rows rs) ≡ rows shown
      → All (Shown user src rs) shown
  unfolding after_passports
  after_passports-Shown user src rs shown h =
      let same = kept-Shown user src rs rs (λ r member. member) in
      subst (λ l. All (Shown user src rs) l) (rows-inj h) same
