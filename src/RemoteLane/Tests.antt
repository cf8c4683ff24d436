-- ===== src/RemoteLane/Tests.antt =====
-- The lane at a concrete sponsor.
use nightpass.Base.{
  ℕ, zero, suc, ◌≤◌, ◌<◌, ◌≡◌, refl, true, false, List, [], ◌∷◌, ◌++◌, length, Option, none, some,
  Text, codes, lower, strip_0x, is_hex32, is_lower_hex32, text_eq, truthy, or_else, if◌then◌else◌,
  Result, ok, err,
}
use nightpass.Base.JsNumber.{int}
use nightpass.Base.Maps.{TextMap, lookup, insert, remove}
use nightpass.Base.Patterns.{
  contains, contains_word, contains_word_from, after_prefix, reports_http, reports_http_here,
  skip_spaces,
}
use nightpass.Base.Retry.{retry, Retried}
use nightpass.Base.Splits.{trim, drop_end, variable, split_on, Env}
use nightpass.ProofPlan.{less_or_equal}
use nightpass.ChainLane.{LaneTx, ProofCartInput, numeric}
use nightpass.RemoteLane.Settings.{
  RemoteLaneConfig, remote_lane_config_from_env, drop_slash, not_set, Artifact,
  cache_dir_for_manifest, fetch_loop, artifact_cache_dir,
}
use nightpass.RemoteLane.Signers.{
  Signer, register_remote_signer, release_remote_signer, has_remote_signer, remote_vault_for,
  is_uuid, bad_handle, bad_seed, signer_of,
}
use nightpass.RemoteLane.Hashes.{resolve_tx_hash, lookup_loop}
use nightpass.RemoteLane.Sponsoring.{
  LaneError, plain_error, is_rebuildable, PreparedCall, prepare_attest, prepare_anchor_content_root,
  prepare_prove_field_predicate, no_batch, Sponsor, attempt_at, build_and_sponsor, submit_anchor_tx,
}
use nightpass.RemoteLane.Landing.{Applied, build_and_sponsor-Applied}
use nightpass.Base.Counts.{drop_id}
use nightpass.RemoteLane.Worker.{
  Proxy, fresh, spawn, call, on_message, fail_all, on_exit, forget_worker, resolved, rejected,
  Reach, begin, next, called, disposed, exited,
}
use nightpass.RemoteLane.Worker.Accounts.{Accounted, Reach-Accounted}
use nightpass.RemoteLane.Carts.{
  MembershipSet, cart_calls, prepare_claims, prepare_claim, submit_proof_cart, root_prefix,
  cart_batch, ProvesAll, cart_calls-ProvesAll,
}

opened : Unit {0}
unfolding remote_lane_config_from_env drop_slash variable trim drop_end skip_spaces
    cache_dir_for_manifest fetch_loop artifact_cache_dir register_remote_signer
    release_remote_signer has_remote_signer remote_vault_for is_uuid split_on resolve_tx_hash
    lookup_loop is_rebuildable attempt_at build_and_sponsor submit_anchor_tx retry contains
    contains_word contains_word_from after_prefix reports_http reports_http_here cart_calls
    prepare_claims prepare_claim submit_proof_cart lookup insert remove text_eq lower strip_0x
    is_hex32 is_lower_hex32
opened = tt

abbrev id64 : Text
id64 = codes "0123456789abcdef0123456789abcdef0123456789abcdef0123456789abcdef"

abbrev uuid : Text
uuid = codes "12345678-1234-1234-1234-1234567890aB"

abbrev signers : TextMap Signer
signers = (uuid, signer_of (id64 ++ id64) (some id64)) ∷ []

-- The second attempt's transaction lands.
abbrev net : Sponsor
net = record {
  build = λ n contract calls batch. ok (codes "bytes");
  sponsor_unbound =
      λ n built. ok (record { tx_hash = some (codes "0x00ab"); job_id = some (codes "j1") });
  wait_landed = λ n id. elim n [
    | zero ↦ err (plain_error (codes "node: 1010/104"))
    | suc m ↦ ok (some (record { applied = none; status = []; failed_segments = [] }))
  ];
  by_identifier = λ n id i. elim i [ zero ↦ none | suc j ↦ some (some id64) ];
}

abbrev down : Sponsor
down = record net { wait_landed = λ n id. ok none }

abbrev prepare : ℕ → Result LaneError (List PreparedCall)
prepare n = ok (prepare_attest id64 id64 ∷ [])

abbrev sent : LaneTx
sent = record { tx_hash = id64; job_id = codes "j1" }

abbrev no_set : List Text → Result LaneError MembershipSet
no_set values = ok (record { set_root = []; proof_for = λ v. none })

abbrev cart : ProofCartInput
cart = record {
  contract_address = id64;
  payload_hash = codes "pp";
  attester_id = none;
  valid_until = none;
  content_root = some (codes "rr");
  schema_id = some (codes "ss");
  claims = numeric (codes "ff") (codes "7") (codes "ee") [] [] less_or_equal 9 none ∷ [];
  timeout_ms = 1;
}

abbrev calls : List PreparedCall
calls =
    prepare_anchor_content_root (codes "pp") (codes "rr") (codes "ss")
    ∷ prepare_prove_field_predicate (codes "aapp") 5 (codes "ff") 9 0 (codes "7") (codes "ee") [] []
    ∷ []

abbrev key_of : Text → Text → Text
key_of a p = a ++ p

abbrev settings : Env
settings name =
    if text_eq name (codes "NIGHTGATE_TX_TTL_MINUTES") then none else some (codes " x/ ")

abbrev manifest : Option (List Artifact)
manifest = some (record { name = some (codes "attestation-vault"); artifact_hash = some id64 } ∷ [])

abbrev config : RemoteLaneConfig
config = record {
  api_url = codes "x";
  agent_token = codes "x/";
  network_id = codes "x/";
  cache_dir = some (codes "x/");
  proof_server_url = some (codes "x/");
  ttl_minutes = none;
}

runs :
    (register_remote_signer uuid (id64 ++ id64) (some id64) [] ≡ ok signers)
    × (register_remote_signer id64 (id64 ++ id64) none [] ≡ err bad_handle)
    × (register_remote_signer uuid id64 none [] ≡ err bad_seed)
    × (resolve_tx_hash (some (codes "0x00ab")) (λ i. none) none ≡ codes "00ab")
    × (build_and_sponsor net (codes "attest") id64 prepare no_batch ≡ ok sent)
    × (submit_anchor_tx net
          (record { contract_address = id64; tx = record { label = []; calls = [] } })
        ≡ ok sent)
    × (build_and_sponsor down (codes "attest") id64 prepare no_batch
        ≡ err (
          codes
              "attest: attest: transaction 0x00ab... was sponsored but the server has not indexed it after 240s",
          plain_error (
              codes
                "attest: transaction 0x00ab... was sponsored but the server has not indexed it after 240s"),
        ))
    × (cart_calls no_set (λ s. s) key_of (codes "aa") 5 cart ≡ ok calls)
    × (is_rebuildable (plain_error (codes "GET x ->  HTTP 5029")) ≡ false)
    × (is_rebuildable (plain_error (codes "GET x ->  HTTP 502 bad")) ≡ true)
    × (remote_lane_config_from_env [] [] (λ s. int 0) settings ≡ ok config)
    × (remote_lane_config_from_env [] [] (λ s. int 0) (λ k. none)
        ≡ err (not_set (codes "NIGHTGATE_API_URL")))
    × ((artifact_cache_dir (λ a b. a ++ b) [] config (λ n. some manifest) none []).1
        ≡ ok (codes "x/0123456789abcdef"))
unfolding opened
runs = (refl, refl, refl, refl, refl, refl, refl, refl, refl, refl, refl, refl, refl)

abbrev short : Option Text
short = some (codes "0x00ab")

abbrev never : ℕ → Option (Option Text)
never i = none

build_and_sponsor-Applied_example :
    (n : ℕ) × (n ≤ 2)
    × Applied net (codes "attest") id64 prepare no_batch n sent
    × ((j : ℕ)
        → j < n
        → Retried is_rebuildable (attempt_at net (codes "attest") id64 prepare no_batch) j)
build_and_sponsor-Applied_example =
    build_and_sponsor-Applied net (codes "attest") id64 prepare no_batch sent runs.4

cart_calls-ProvesAll_example :
    (prefix : List PreparedCall) × (proofs : List PreparedCall) × (root_prefix no_set
        (λ s. s)
        key_of
        (codes "aa")
        5
        cart
        (truthy cart.content_root)
        (truthy cart.schema_id)
      ≡ ok prefix)
    × (length prefix ≡ (cart_batch no_set (λ s. s) key_of (codes "aa") 5 cart).ordered_prefix)
    × (calls ≡ prefix ++ proofs)
    × ProvesAll no_set
        (λ s. s)
        key_of
        (codes "aa")
        5
        (key_of (or_else cart.attester_id (codes "aa")) cart.payload_hash)
        (or_else cart.valid_until 5)
        cart.claims
        proofs
cart_calls-ProvesAll_example =
    cart_calls-ProvesAll no_set (λ s. s) key_of (codes "aa") 5 cart calls runs.7

-- A call, a dispose, a call of a second worker, and then the exit of the first one.
abbrev after_exit : Proxy
after_exit = on_exit 0 (codes "exited") (call (forget_worker (call fresh)))

after_exit_runs :
    (after_exit.pending ≡ [])
    × (after_exit.settled ≡ ((1, rejected (codes "exited")) ∷ (2, rejected (codes "exited")) ∷ []))
    × (after_exit.worker ≡ some 1)
    × ((on_message
          (record { id = 1; ok = true; result = codes "r"; error = none })
          (call fresh)).settled
        ≡ ((1, resolved (codes "r")) ∷ []))
unfolding on_exit fail_all call spawn forget_worker on_message drop_id
after_exit_runs = (refl, refl, refl, refl)

reached : Reach after_exit
reached = next (next (next (next begin called) disposed) called) (exited 0 (codes "exited"))

Reach-Accounted_example : Accounted after_exit
Reach-Accounted_example = Reach-Accounted after_exit reached
