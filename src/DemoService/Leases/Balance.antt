-- ===== src/DemoService/Leases/Balance.antt =====
-- The vault that a run gets has the fewest runs in flight.
use nightpass.Base.{
  ℕ, ◌+◌, ◌≤◌, ◌≡◌, ◌⊎◌, inl, inr, refl, ap, arith, Bool, true, false, List, [], ◌∷◌, some, Text,
  text_eq, text_eq_iff, ltb, Bool-cases, Option-cases, if◌then◌else◌, Among, ◌∙◌, subst,
}
use nightpass.Base.Maps.{TextMap, lookup, lookup-insert}
use nightpass.DemoService.Leases.{
  VaultLeases, no_load, add_load, add_loads, load_of, least_loaded, pick_vault,
}

-- How many runs in flight hold the vault.
abbrev pub runs_on : Text → VaultLeases → ℕ
runs_on u [] = 0
runs_on u (lease ∷ leases) = (if text_eq lease.1 u then 1 else 0) + runs_on u leases

lookup-no_load : (u : Text) (pool : List Text) → Among u pool → lookup u (no_load pool) ≡ some 0
unfolding no_load lookup
lookup-no_load u [] h = absurd h
lookup-no_load u (v ∷ pool) (inl e) = ground (arith, text_eq_iff v u)
lookup-no_load u (v ∷ pool) (inr h) = ground (arith, lookup-no_load u pool h)

lookup-add_load :
    (u v : Text) (load : TextMap ℕ) (n : ℕ)
    → lookup u load ≡ some n
    → lookup u (add_load v load) ≡ some ((if text_eq v u then 1 else 0) + n)
unfolding add_load
lookup-add_load u v load n h = elim (Option-cases (lookup v load)) [
  | inl e ↦ elim (Bool-cases (text_eq v u)) [
    | inl same ↦ let one : v ≡ u = (text_eq_iff v u).0 same in absurd (cc (rw one at e))
    | inr differs ↦ rw (e, differs, add_load) (h ∙ ap some (omega arith))
  ]
  | inr (m, e) ↦
      rw (e, add_load)
        (rw (lookup-insert v u (m + 1) load) (elim (Bool-cases (text_eq v u)) [
          | inl same ↦
              let one : v ≡ u = (text_eq_iff v u).0 same in
              let count : some m ≡ some n = cc (rw one at e) in rw same (ground arith)
          | inr differs ↦ rw differs (h ∙ ap some (omega arith))
        ]))
]

lookup-add_loads :
    (u : Text) (leases : VaultLeases) (load : TextMap ℕ) (n : ℕ)
    → lookup u load ≡ some n
    → lookup u (add_loads leases load) ≡ some (runs_on u leases + n)
unfolding add_loads
lookup-add_loads u [] load n h = h ∙ ap some (omega arith)
lookup-add_loads u (lease ∷ leases) load n h =
    lookup-add_loads u leases (add_load lease.1 load) ((if text_eq lease.1 u then 1 else 0) + n)
      (lookup-add_load u lease.1 load n h)
    ∙ ap some (omega arith)

-- The loads that acquireVault counts are the numbers of runs in flight.
load_of-add_loads :
    (u : Text) (pool : List Text) (leases : VaultLeases)
    → Among u pool
    → load_of (add_loads leases (no_load pool)) u ≡ runs_on u leases
load_of-add_loads u pool leases h =
    rw (lookup-add_loads u leases (no_load pool) 0 (lookup-no_load u pool h)) (omega arith)

-- The vault `r` is no worse than the best one so far and than those of the pool, and is one of them.
abbrev IsLeast : TextMap ℕ → Text → List Text → Text → Type 0
IsLeast load best pool r =
    (load_of load r ≤ load_of load best)
    × ((u : Text) → Among u pool → load_of load r ≤ load_of load u)
    × ((r ≡ best) ⊎ Among r pool)

IsLeast-cons :
    (load : TextMap ℕ) (best v : Text) (pool : List Text) (b : Bool) (r : Text)
    → ltb (load_of load v) (load_of load best) ≡ b
    → IsLeast load (if b then v else best) pool r
    → IsLeast load best (v ∷ pool) r
IsLeast-cons load best v pool true r e (le, least, who) = (
  ground arith,
  (λ u. elim [ inl same ↦ rw same le | inr h ↦ least u h ]),
  elim who [ inl now ↦ inr (inl now) | inr h ↦ inr (inr h) ],
)
IsLeast-cons load best v pool false r e (le, least, who) = (
  le,
  (λ u. elim [ inl same ↦ rw same (ground arith) | inr h ↦ least u h ]),
  elim who [ inl now ↦ inl now | inr h ↦ inr (inr h) ],
)

least_loaded-IsLeast :
    (load : TextMap ℕ) (best : Text) (pool : List Text)
    → IsLeast load best pool (least_loaded load best pool)
unfolding least_loaded
least_loaded-IsLeast load best [] = (omega arith, (λ u h. absurd h), inl refl)
least_loaded-IsLeast load best (v ∷ pool) =
    let better = ltb (load_of load v) (load_of load best) in
    IsLeast-cons load best v pool better _ refl
      (least_loaded-IsLeast load (if better then v else best) pool)

-- The vault that a run gets is one of the pool, and none of the pool has fewer runs in flight.
pub pick_vault-Least :
    (pool : List Text) (leases : VaultLeases) (v : Text)
    → pick_vault pool leases ≡ some v
    → Among v pool × ((u : Text) → Among u pool → runs_on v leases ≤ runs_on u leases)
unfolding pick_vault
pick_vault-Least [] leases v h = absurd (cc)
pick_vault-Least (first ∷ pool) leases v h =
    let all_vaults = first ∷ pool in
    let load = add_loads leases (no_load all_vaults) in
    let same : least_loaded load first all_vaults ≡ v = cc in
    let (_, least, who) = least_loaded-IsLeast load first all_vaults in
    let member : Among (least_loaded load first all_vaults) all_vaults = elim who [
      | inl e ↦ inl e
      | inr m ↦ m
    ] in
    subst
      (λ x.
        Among x all_vaults
        × ((u : Text) → Among u all_vaults → runs_on x leases ≤ runs_on u leases))
      same
      (
        member,
        (λ u h.
            rw
              (
                ← load_of-add_loads (least_loaded load first all_vaults) all_vaults leases member,
                ← load_of-add_loads u all_vaults leases h,
              )
              (least u h)),
      )
