-- ===== src/DemoService/Leases.antt =====
-- The leases of runs: a sponsor of its own for each run (acquireSponsor), and the vault with the
-- fewest runs in flight (acquireVault). A run id is the number of its request.
pub mod Balance
use nightpass.Base.{
  ℕ, suc, ◌+◌, Bool, true, false, not, ◌&&◌, List, [], ◌∷◌, ◌++◌, map, find, Option, none, some,
  is_some, Text, text_eq, or_else, ◌==◌, ltb, if◌then◌else◌,
}
use nightpass.Base.Maps.{TextMap, lookup, insert, remove}
use nightpass.Base.Splits.{Env}
use nightpass.ProducerWallets.{fee_sponsor_wallet_ids}
use nightpass.DemoService.{remote_transport, vault_pool}

-- A JavaScript `Map` whose keys are run ids.
abbrev pub RunMap {ℓ} : Type ℓ → Type ℓ
RunMap V = List (ℕ × V)

module _ {ℓ} {V : Type ℓ} where
  unfoldable pub get : ℕ → RunMap V → Option V
  get k [] = none
  get k (entry ∷ m) = if entry.0 == k then some entry.1 else get k m

  unfoldable pub set : ℕ → V → RunMap V → RunMap V
  set k v [] = (k, v) ∷ []
  set k v (entry ∷ m) = if entry.0 == k then (k, v) ∷ m else entry ∷ set k v m

  unfoldable pub delete : ℕ → RunMap V → RunMap V
  delete k [] = []
  delete k (entry ∷ m) = let rest = delete k m in if entry.0 == k then m else entry ∷ rest

-- `this.sponsorLeases`, from a wallet to its run
abbrev pub SponsorLeases : Type 0
SponsorLeases = TextMap ℕ

-- `this.vaultLeases`, from a run to its vault
abbrev pub VaultLeases : Type 0
VaultLeases = RunMap Text

unfoldable pub free_sponsor : List Text → SponsorLeases → Option Text
unfolding lookup
free_sponsor wallets leases = find (λ w. not (is_some (lookup w leases))) wallets

-- `sponsorLeases.set(free, runId)`, if there is one
abbrev pub lease_sponsor : ℕ → Option Text → SponsorLeases → Option Text × SponsorLeases
lease_sponsor run_id none leases = (none, leases)
lease_sponsor run_id (some w) leases = (some w, insert w run_id leases)

unfoldable pub acquire_sponsor : Env → ℕ → SponsorLeases → Option Text × SponsorLeases
unfolding free_sponsor remote_transport
acquire_sponsor env run_id leases =
    if remote_transport env
    then (none, leases)
    else lease_sponsor run_id (free_sponsor (fee_sponsor_wallet_ids env) leases) leases

-- `new Map(pool.map((v) => [v, 0]))`
unfoldable pub no_load : List Text → TextMap ℕ
unfolding insert
no_load [] = []
no_load (v ∷ pool) = (v, 0) ∷ no_load pool

-- One round of the loop over the vaults that are leased.
unfoldable pub add_load : Text → TextMap ℕ → TextMap ℕ
unfolding lookup insert
add_load v load = elim (lookup v load) [ none ↦ load | some n ↦ insert v (n + 1) load ]

unfoldable pub add_loads : VaultLeases → TextMap ℕ → TextMap ℕ
unfolding add_load
add_loads [] load = load
add_loads (lease ∷ leases) load = add_loads leases (add_load lease.1 load)

abbrev pub load_of : TextMap ℕ → Text → ℕ
load_of load v = or_else (lookup v load) 0

-- `pool.reduce(...)`, from the best vault so far
unfoldable pub least_loaded : TextMap ℕ → Text → List Text → Text
unfolding lookup
least_loaded load best [] = best
least_loaded load best (v ∷ pool) =
    least_loaded load (if ltb (load_of load v) (load_of load best) then v else best) pool

unfoldable pub pick_vault : List Text → VaultLeases → Option Text
unfolding least_loaded add_loads no_load
pick_vault [] leases = none
pick_vault (first ∷ pool) leases =
    some (least_loaded (add_loads leases (no_load (first ∷ pool))) first (first ∷ pool))

abbrev pub lease_vault : ℕ → Option Text → VaultLeases → Option Text × VaultLeases
lease_vault run_id none leases = (none, leases)
lease_vault run_id (some v) leases = (some v, set run_id v leases)

unfoldable pub acquire_vault : Env → ℕ → VaultLeases → Option Text × VaultLeases
unfolding pick_vault
acquire_vault env run_id leases = lease_vault run_id (pick_vault (vault_pool env) leases) leases
