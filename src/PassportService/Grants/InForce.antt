-- ===== src/PassportService/Grants/InForce.antt =====
-- No tier is raised without a grant in force.
use nightpass.Base.{
  ℕ, ◌≡◌, ◌⊎◌, inl, inr, refl, Bool, true, false, ◌&&◌, and-eq-true_iff, List, [], ◌∷◌, Option,
  none, some, Text, text_eq, text_eq_iff, is_empty, leb, Among, All, Bool-cases, if◌then◌else◌,
}
use nightpass.Base.Maps.{TextMap, lookup, lookup-insert}
use nightpass.PassportService.Grants.{
  ChainGrant, LogRow, PassportHash, at_least, bump, is_one_of, bump_chain, is_settled, log_key,
  hash_of, bump_log,
}

-- An active grant on the chain to one of the grantees, at the level.
abbrev pub OnChain : List Text → List ChainGrant → Text → ℕ → Type 0
OnChain grantees chain hash n =
    (g : ChainGrant) × Among g chain
    × (is_one_of grantees g.grantee ≡ true)
    × (g.active ≡ true)
    × (g.payload_hash ≡ some hash)
    × (g.level ≡ n)

-- The row is of one of the grantees and settled.
abbrev pub Counts : List Text → LogRow → Type 0
Counts grantees r = (is_one_of grantees r.grantee ≡ true) × (is_settled r.status ≡ true)

-- The row stands in the log and counts, and no row behind it with the same key does.
abbrev pub IsLatest : List Text → List LogRow → LogRow → Type 0
IsLatest grantees [] r = ⊥
IsLatest grantees (q ∷ log) r =
    IsLatest grantees log r
    ⊎ ((q ≡ r)
        × Counts grantees r
        × All
            (λ p.
              (text_eq (log_key p) (log_key r)
                && (is_one_of grantees p.grantee && is_settled p.status))
              ≡ false)
            log)

-- A grant to one of the grantees, for a passport with the hash, that is the latest of the log.
abbrev pub InLog : List Text → List LogRow → List PassportHash → Text → ℕ → Type 0
InLog grantees log passports hash n =
    (r : LogRow) × IsLatest grantees log r
    × (r.is_grant ≡ true)
    × (hash_of r.passport passports ≡ some hash)
    × (r.level ≡ n)

at_least-cases : (o : Option ℕ) (n m : ℕ) → at_least o n ≡ m → (o ≡ some m) ⊎ (n ≡ m)
at_least-cases none n m h = inr h
at_least-cases (some k) n m h = elim (Bool-cases (leb k n)) [
  | inl e ↦ inr (rw e at h)
  | inr e ↦ let same : k ≡ m = rw e at h in inl (rw same refl)
]

lookup-bump :
    (hash : Text) (o : Option Text) (n m : ℕ) (out : TextMap ℕ)
    → lookup hash (bump o n out) ≡ some m
    → (lookup hash out ≡ some m) ⊎ ((o ≡ some hash) × (n ≡ m))
unfolding bump
lookup-bump hash none n m out h = inl h
lookup-bump hash (some k) n m out h = elim (Bool-cases (is_empty k)) [
  | inl e ↦ inl (rw e at h)
  | inr e ↦
      let stored = rw (e, lookup-insert k hash (at_least (lookup k out) n) out) at h in
      elim (Bool-cases (text_eq k hash)) [
        | inr differs ↦ inl (rw differs at stored)
        | inl same ↦
            let one : k ≡ hash = (text_eq_iff k hash).0 same in
            let value = rw same at stored in
            let number : at_least (lookup k out) n ≡ m = cc in
            elim (at_least-cases (lookup k out) n m number) [
              | inl old ↦ inl (rw one at old)
              | inr new ↦ inr (rw one refl, new)
            ]
      ]
]

pub lookup-bump_chain :
    (grantees : List Text) (hash : Text) (m : ℕ) (chain : List ChainGrant) (out : TextMap ℕ)
    → lookup hash (bump_chain grantees chain out) ≡ some m
    → (lookup hash out ≡ some m) ⊎ OnChain grantees chain hash m
unfolding bump_chain
lookup-bump_chain grantees hash m [] out h = inl h
lookup-bump_chain grantees hash m (g ∷ gs) out h =
    by_test (is_one_of grantees g.grantee && g.active) refl (
      lookup-bump_chain grantees hash m gs
        (if is_one_of grantees g.grantee && g.active then bump g.payload_hash g.level out else out)
        h)
  where
    by_test :
        (b : Bool)
        → (is_one_of grantees g.grantee && g.active) ≡ b
        → (lookup hash (if b then bump g.payload_hash g.level out else out) ≡ some m)
          ⊎ OnChain grantees gs hash m
        → (lookup hash out ≡ some m) ⊎ OnChain grantees (g ∷ gs) hash m
    by_test b e (inr (k, member, a, c, d, l)) = inr (k, inr member, a, c, d, l)
    by_test false e (inl old) = inl old
    by_test true e (inl raised) =
        let (ours, active) = (and-eq-true_iff _ _).0 e in
        elim (lookup-bump hash g.payload_hash g.level m out raised) [
          | inl old ↦ inl old
          | inr (hashed, level) ↦ inr (g, inl refl, ours, active, hashed, level)
        ]

pub lookup-bump_log :
    (hash : Text) (m : ℕ) (passports : List PassportHash) (latest : TextMap LogRow)
    (out : TextMap ℕ)
    → lookup hash (bump_log passports latest out) ≡ some m
    → (lookup hash out ≡ some m)
      ⊎ ((e : Text × LogRow) × Among e latest
          × (e.1.is_grant ≡ true)
          × (hash_of e.1.passport passports ≡ some hash)
          × (e.1.level ≡ m))
unfolding bump_log
lookup-bump_log hash m passports [] out h = inl h
lookup-bump_log hash m passports (e ∷ latest) out h = by_test e.1.is_grant refl (
    lookup-bump_log hash m passports latest
      (if e.1.is_grant then bump (hash_of e.1.passport passports) e.1.level out else out) h)
  where
    by_test :
        (b : Bool)
        → e.1.is_grant ≡ b
        → (lookup hash (if b then bump (hash_of e.1.passport passports) e.1.level out else out)
            ≡ some m)
          ⊎ ((f : Text × LogRow) × Among f latest
              × (f.1.is_grant ≡ true)
              × (hash_of f.1.passport passports ≡ some hash)
              × (f.1.level ≡ m))
        → (lookup hash out ≡ some m)
          ⊎ ((f : Text × LogRow) × Among f (e ∷ latest)
              × (f.1.is_grant ≡ true)
              × (hash_of f.1.passport passports ≡ some hash)
              × (f.1.level ≡ m))
    by_test b t (inr (f, member, a, c, d)) = inr (f, inr member, a, c, d)
    by_test false t (inl old) = inl old
    by_test true t (inl raised) =
        elim (lookup-bump hash (hash_of e.1.passport passports) e.1.level m out raised) [
          | inl old ↦ inl old
          | inr (hashed, level) ↦ inr (e, inl refl, t, hashed, level)
        ]
