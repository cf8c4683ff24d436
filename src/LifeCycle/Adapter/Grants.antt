-- ===== src/LifeCycle/Adapter/Grants.antt =====
-- What the adapter gives away.
use nightpass.Base.{
  ℕ, ◌≡◌, refl, false, [], ◌∷◌, Option, none, some, Text, codes, text_eq, text_eq_refl, lower,
  is_empty,
}
use nightpass.Base.Maps.{lookup-insert}
use nightpass.LifeCycle.{Api, Headers, operator, read_role, role_of, credential}
use nightpass.LifeCycle.Handlers.{World}
use nightpass.LifeCycle.Access.{caller_in}
use nightpass.LifeCycle.Adapter.{
  string, Command, at_name, pick, issue_credentials, run_command, run_commands, test_setup,
}

-- A command that asks for the credential of an economic operator.
abbrev pub ask_operator : {D : Type 0} → Command D
ask_operator = record {
  name = some (codes "issueCredentials");
  fields = (codes "role", string (codes "economic_operator")) ∷ [];
}

-- Whoever reaches the adapter, on a public host too, becomes the operator: after one setup, the token
-- that it answers is the operator's.
pub test_setup-operator :
    {S D : Type 0} (w : World S D) (parse : Text → Option D) (show_json : D → Text)
    (mint : ℕ → Text → Text) (s : Api S D) (h : Headers)
    → is_empty (mint 0 (codes "economic_operator")) ≡ false
    → credential h ≡ mint 0 (codes "economic_operator")
    → caller_in w h (test_setup w parse show_json mint none (ask_operator ∷ []) s).1 ≡ operator
unfolding test_setup run_commands run_command issue_credentials pick at_name text_eq lower read_role
    role_of
test_setup-operator w parse show_json mint s h minted given =
    let token = mint 0 (codes "economic_operator") in
    rw
      (
        given,
        minted,
        lookup-insert token token (codes "economic_operator") s.tokens,
        text_eq_refl token,
      )
      refl
