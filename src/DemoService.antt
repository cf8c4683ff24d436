-- ===== src/DemoService.antt =====
-- srv/demo-service.ts: the settings of the demo, read from an environment that is a function. What
-- `Number` makes of a text is a parameter.
pub mod Leases
pub mod Queue
pub mod Caps
pub mod Polls
pub mod Execute
pub mod Actions
mod Tests
use nightpass.Base.{
  ◌≡◌, Bool, true, false, not, ◌&&◌, ◌||◌, List, [], ◌∷◌, map, filter, any, Option, none, some,
  Text, codes, text_eq, lower, length, or_else, is_hex32, is_lower_hex32, truthy, text_or_empty,
  ltb, ℕ, if◌then◌else◌,
}
use nightpass.Base.JsNumber.{JsNumber, int, num_max, num_min}
use nightpass.Base.Splits.{Env, trim, split_on, fields_of}
use nightpass.ProducerWallets.{fee_sponsor_wallet_ids, first_of}

-- `process.env.NAME === value`
abbrev pub is_set_to : Env → Text → Text → Bool
is_set_to env name value = elim (env name) [ none ↦ false | some s ↦ text_eq s value ]

unfoldable pub encryption_key_ok : Env → Bool
encryption_key_ok env = is_hex32 (text_or_empty (env (codes "ENCRYPTION_KEY")))

unfoldable pub enabled : Env → Bool
unfolding encryption_key_ok
enabled env = is_set_to env (codes "DEMO_ENABLED") (codes "true") && encryption_key_ok env

unfoldable pub remote_transport : Env → Bool
remote_transport env = is_set_to env (codes "DEMO_TRANSPORT") (codes "remote")

-- `new Set(list)` as a list: the first of equal members stays, in its place.
unfoldable pub without_repeats : List Text → List Text
without_repeats [] = []
without_repeats (x ∷ xs) = x ∷ filter (λ y. not (text_eq x y)) (without_repeats xs)

-- `a ?? b`
abbrev pub or_given : Option Text → Option Text → Option Text
or_given none b = b
or_given (some a) b = some a

unfoldable pub vault_pool : Env → List Text
unfolding trim split_on lower without_repeats
vault_pool env =
    let given = text_or_empty (
      or_given (env (codes "PASSPORT_CONTRACT_ADDRESSES"))
        (env (codes "PASSPORT_CONTRACT_ADDRESS"))) in
    without_repeats (filter is_lower_hex32 (map (λ v. lower (trim v)) (split_on b',' given)))

unfoldable pub contract_address : Env → Option Text
unfolding vault_pool
contract_address env = first_of (vault_pool env)

-- `ip` is the address of the request, "" if there is none.
unfoldable pub ip_exempt_from_cap : Env → Text → Bool
unfolding fields_of
ip_exempt_from_cap env ip =
    any (text_eq ip) (fields_of b',' (text_or_empty (env (codes "DEMO_IP_ALLOWLIST"))))

-- `n || 1`
abbrev pub or_one : ℕ → ℕ
or_one n = if ltb 0 n then n else 1

module _ (number : Text → JsNumber) (env : Env) where
  -- `Number(process.env.NAME || default)`
  abbrev pub number_setting : Text → ℕ → JsNumber
  number_setting name default = elim (truthy (env name)) [ none ↦ int default | some s ↦ number s ]

  unfoldable pub max_per_day : JsNumber
  max_per_day = number_setting (codes "DEMO_MAX_PER_DAY") 50

  unfoldable pub max_per_ip_per_day : JsNumber
  max_per_ip_per_day = number_setting (codes "DEMO_MAX_PER_IP_PER_DAY") 5

  unfoldable pub max_per_tester : JsNumber
  max_per_tester = number_setting (codes "DEMO_MAX_PER_TESTER") 1

  unfoldable pub max_queue : JsNumber
  max_queue = number_setting (codes "DEMO_MAX_QUEUE") 5

  abbrev pub wanted_concurrency : JsNumber
  wanted_concurrency = number_setting (codes "DEMO_CONCURRENCY") 1

  unfoldable pub concurrency : JsNumber
  unfolding remote_transport fee_sponsor_wallet_ids
  concurrency =
      if remote_transport env
      then num_max (int 1) wanted_concurrency
      else num_max (int 1)
          (num_min (int (or_one (length (fee_sponsor_wallet_ids env)))) wanted_concurrency)

  unfoldable pub start_stagger_ms : JsNumber
  unfolding remote_transport vault_pool
  start_stagger_ms =
      number_setting (codes "DEMO_START_STAGGER_MS")
        (if remote_transport env && ltb 1 (length (vault_pool env)) then 5000 else 45000)
