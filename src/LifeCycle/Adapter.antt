-- ===== src/LifeCycle/Adapter.antt =====
-- The test adapter (TestSetup, TestTeardown): documents, their place on the market, and credentials. No
-- guard stands before it.
pub mod Grants
use nightpass.Base.{
  ℕ, suc, ◌+◌, Bool, true, false, not, ◌&&◌, ◌||◌, List, [], ◌∷◌, ◌++◌, Option, none, some, Text,
  codes, text_eq, lower, is_empty, or_else, length, if◌then◌else◌, Result, ok, err,
}
use nightpass.Base.Acts.{◌>>=◌, ◌>>◌, return, lift, modify}
use nightpass.Base.Maps.{TextMap, insert}
use nightpass.LifeCycle.{
  DppVersion, ExternalService, Mirrored, version_row, replacing, Api, read_role, is_operator,
}
use nightpass.LifeCycle.Handlers.{Response, ended, World, Handler, mirror, market_dpp, stored}

-- A value of a command's data.
pub data Field (D : Type 0) : Type 0 where
  undefined : Field D
  string : Text → Field D
  json : D → Field D

abbrev pub Data : Type 0 → Type 0
Data D = List (Text × Field D)

-- The value of the last key that is the name in any case, as `lower.get(...)` finds it.
unfoldable pub at_name : {D : Type 0} → Text → Data D → Option (Field D)
unfolding lower text_eq
at_name name [] = none
at_name name (entry ∷ data_left) =
    let later = at_name name data_left in
    elim later [
      | some v ↦ some v
      | none ↦ if text_eq (lower entry.0) (lower name) then some entry.1 else none
    ]

-- A value that is not undefined and not "".
abbrev pub given_value : {D : Type 0} → Option (Field D) → Option (Field D)
given_value none = none
given_value (some undefined) = none
given_value (some (string s)) = if is_empty s then none else some (string s)
given_value (some (json d)) = some (json d)

unfoldable pub pick : {D : Type 0} → Data D → List Text → Option (Field D)
unfolding at_name
pick fields [] = none
pick fields (name ∷ names) =
    let others = pick fields names in
    elim (given_value (at_name name fields)) [ some v ↦ some v | none ↦ others ]

pub record Command (D : Type 0) : Type 0 where
  pub name : Option Text
  pub fields : Data D

pub data CommandResult : Type 0 where
  done_with : (name : Text) → Bool → CommandResult
  issued : (credential_type token role : Text) → CommandResult

-- `parse` is `JSON.parse` for a document, `show_json` is `String(v)` of a document, and `mint` makes the token of a
-- command's number.
module _ {S D : Type 0} (w : World S D) (parse : Text → Option D) (show_json : D → Text)
    (mint : ℕ → Text → Text) where
  -- `String(v)`
  abbrev pub text_of : Field D → Text
  text_of undefined = codes "undefined"
  text_of (string s) = s
  text_of (json d) = show_json d

  abbrev pub text_at : Option (Field D) → Option Text
  text_at none = none
  text_at (some v) = some (text_of v)

  abbrev pub document_in : Option (Field D) → Option D
  document_in (some (string s)) = parse s
  document_in (some (json d)) = some d
  document_in _ = none

  abbrev pub insert_parsed : Data D → Option D → Handler w CommandResult
  insert_parsed fields none = return (done_with (codes "insertBatteryPass") false)
  insert_parsed fields (some doc) = do
    row ← stored w (
        w.ops.insert_new
          (text_at (pick fields (codes "dpP_ID" ∷ codes "DPP_ID" ∷ codes "dppId" ∷ [])))
          (text_at (pick fields (codes "product_ID" ∷ codes "Product_ID" ∷ codes "productId" ∷ [])))
          (text_at (pick fields (codes "status" ∷ codes "Status" ∷ []))) doc)
    mirror w (replacing row)
    return (done_with (codes "insertBatteryPass") true)

  unfoldable pub insert_battery_pass : Data D → Handler w CommandResult
  unfolding pick
  insert_battery_pass fields =
      insert_parsed fields (document_in (pick fields (codes "dpp" ∷ codes "DPP" ∷ [])))

  abbrev pub no_errors : List Text → Bool
  no_errors [] = true
  no_errors (e ∷ es) = false

  abbrev pub bring_row : Option (DppVersion D) → Handler w CommandResult
  bring_row none = return (done_with (codes "bringBatteryToMarket") false)
  bring_row (some row) = do
    mirror w (version_row row)
    errors ← market_dpp w row
    return (done_with (codes "bringBatteryToMarket") (no_errors errors))

  unfoldable pub bring_battery_to_market : Data D → Handler w CommandResult
  unfolding pick market_dpp
  bring_battery_to_market fields = do
    row ← stored w (
        w.ops.activate_by_product (
          or_else
            (text_at
              (pick fields (codes "product_ID" ∷ codes "Product_ID" ∷ codes "productId" ∷ [])))
            []))
    bring_row row

  abbrev pub is_role : Text → Bool
  is_role name = is_operator name || (elim (read_role name) [ none ↦ false | some r ↦ true ])

  unfoldable pub issue_credentials : ℕ → Data D → Handler w CommandResult
  unfolding pick insert read_role text_eq
  issue_credentials n fields =
      let role = or_else (text_at (pick fields (codes "role" ∷ []))) (codes "public") in
      let kind = or_else (text_at (pick fields (codes "type" ∷ []))) (codes "apiKey") in
      if is_role role
      then (do
        modify (λ s. record s { tokens = insert (mint n role) role s.tokens })
        return (issued kind (mint n role) role))
      else return (done_with (codes "issueCredentials") false)

  unfoldable pub run_command : ℕ → Command D → Handler w CommandResult
  unfolding insert_battery_pass bring_battery_to_market issue_credentials text_eq
  run_command n c =
      let name = or_else c.name (codes "unknown") in
      if text_eq name (codes "insertBatteryPass")
      then insert_battery_pass c.fields
      else if text_eq name (codes "bringBatteryToMarket")
      then bring_battery_to_market c.fields
      else if text_eq name (codes "issueCredentials")
      then issue_credentials n c.fields
      else return (done_with name false)

  -- The commands in order; a call that fails is a result, and the next command runs.
  unfoldable pub run_commands : ℕ → List (Command D) → Handler w (List CommandResult)
  unfolding run_command
  run_commands n [] = return []
  run_commands n (c ∷ cs) = do
    result ← run_command n c
    results ← run_commands (suc n) cs
    return (result ∷ results)

  abbrev pub replaced : Option (List ExternalService) → List ExternalService → List ExternalService
  replaced none services = services
  replaced (some announced) services = announced

  unfoldable pub test_setup :
      Option (List ExternalService) → List (Command D) → Handler w (List CommandResult)
  unfolding run_commands
  test_setup announced commands = do
    modify (λ s. record s { external_services = replaced announced s.external_services })
    run_commands 0 commands

  unfoldable pub test_teardown : Handler w (Response D)
  test_teardown = do
    modify (λ s. record s {
      store = w.ops.clear s.store;
      tokens = [];
      backup_ids = [];
      external_services = [];
      mirror = [];
    })
    return (ended 200)
