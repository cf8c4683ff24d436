-- ===== src/RemoteLane/Settings.antt =====
-- The configuration of the lane and the directory of its prover keys. The home directory's cache and
-- the joining of paths are parameters, as is `Number(s)`; a fetch is a function of the attempt's
-- number, of which there is at least one.
use nightpass.Base.{
  ℕ, zero, suc, ◌+◌, Bool, false, List, [], ◌∷◌, ◌++◌, Option, none, some, Text, codes, lower,
  is_hex32, text_eq, take, find, or_else, if◌then◌else◌, ◌==◌, Result, ok, err, ◌>>=◌,
}
use nightpass.Base.JsNumber.{JsNumber, nan, plus, minus}
use nightpass.Base.Splits.{Env, variable}
use nightpass.Base.Maps.{TextMap, lookup, insert}

pub record RemoteLaneConfig : Type 0 where
  pub api_url : Text
  pub agent_token : Text
  pub network_id : Text
  pub cache_dir : Option Text
  pub proof_server_url : Option Text
  pub ttl_minutes : Option JsNumber

pub data SettingsError : Type 0 where
  not_set : Text → SettingsError
  manifest_unavailable : ℕ → SettingsError

-- `need(k)`
abbrev pub need : Env → Text → Result SettingsError Text
need env k = elim (variable env k) [ none ↦ err (not_set k) | some v ↦ ok v ]

-- `url.replace(/\/$/, '')`
unfoldable pub drop_slash : Text → Text
drop_slash [] = []
drop_slash (c ∷ []) = if c == b'/' then [] else c ∷ []
drop_slash (c ∷ d ∷ s) = c ∷ drop_slash (d ∷ s)

-- `n || undefined`
abbrev pub number_or_none : JsNumber → Option JsNumber
number_or_none nan = none
number_or_none (plus zero q) = none
number_or_none (minus zero q) = none
number_or_none n = some n

abbrev pub minutes_of : (Text → JsNumber) → Option Text → Option JsNumber
minutes_of number_of none = none
minutes_of number_of (some s) = number_or_none (number_of s)

unfoldable pub remote_lane_config_from_env :
    (home_cache network : Text) → (Text → JsNumber) → Env → Result SettingsError RemoteLaneConfig
unfolding variable drop_slash
remote_lane_config_from_env home_cache network number_of env = do
  api_url ← need env (codes "NIGHTGATE_API_URL")
  token ← need env (codes "DEMO_NIGHTGATE_AGENT_TOKEN")
  ok (record {
    api_url = drop_slash api_url;
    agent_token = token;
    network_id = or_else (variable env (codes "NIGHTGATE_NETWORK")) network;
    cache_dir = some (or_else (variable env (codes "NIGHTGATE_ZK_CACHE_DIR")) home_cache);
    proof_server_url = variable env (codes "NIGHTGATE_PROOF_SERVER_URL");
    ttl_minutes = minutes_of number_of (env (codes "NIGHTGATE_TX_TTL_MINUTES"));
  })

pub record Artifact : Type 0 where
  pub name : Option Text
  pub artifact_hash : Option Text

module _ (join_path : Text → Text → Text) where
  abbrev pub is_vault : Artifact → Bool
  is_vault a = elim a.name [ none ↦ false | some n ↦ text_eq n (codes "attestation-vault") ]

  abbrev pub keyed_dir : Text → Option Artifact → Text
  keyed_dir base none = base
  keyed_dir base (some a) = elim a.artifact_hash [
    | none ↦ base
    | some h ↦ if is_hex32 h then join_path base (lower (take 16 h)) else base
  ]

  -- The contracts of the manifest, if there are any.
  unfoldable pub cache_dir_for_manifest : Text → Option (List Artifact) → Text
  unfolding text_eq is_hex32 lower
  cache_dir_for_manifest base none = base
  cache_dir_for_manifest base (some contracts) = keyed_dir base (find is_vault contracts)

  -- One attempt: the directory, if the manifest was fetched and names an artifact.
  abbrev pub dir_of : Text → Option (Option (List Artifact)) → Option Text
  dir_of base none = none
  dir_of base (some manifest) =
      let dir = cache_dir_for_manifest base manifest in if text_eq dir base then none else some dir

  unfoldable pub fetch_loop : Text → (ℕ → Option (Option (List Artifact))) → ℕ → ℕ → Option Text
  unfolding cache_dir_for_manifest text_eq
  fetch_loop base fetches zero i = none
  fetch_loop base fetches (suc left) i =
      let later = fetch_loop base fetches left (i + 1) in
      elim (dir_of base (fetches i)) [ none ↦ later | some dir ↦ some dir ]

  abbrev pub cache_key : RemoteLaneConfig → Text → Text
  cache_key cfg base = cfg.api_url ++ (b'|' ∷ base)

  -- The directories that are kept, and the outcome; one that fails is not kept.
  unfoldable pub artifact_cache_dir :
      (home_cache : Text)
      → RemoteLaneConfig
      → (ℕ → Option (Option (List Artifact)))
      → Option ℕ
      → TextMap Text
      → TextMap Text × Result SettingsError Text
  unfolding fetch_loop lookup insert
  artifact_cache_dir home_cache cfg fetches attempts kept =
      let base = or_else cfg.cache_dir home_cache in
      elim (lookup (cache_key cfg base) kept) [
        | some dir ↦ (kept, ok dir)
        | none ↦ elim (fetch_loop base fetches (or_else attempts 4) 0) [
          | none ↦ (kept, err (manifest_unavailable (or_else attempts 4)))
          | some dir ↦ (insert (cache_key cfg base) dir kept, ok dir)
        ]
      ]
