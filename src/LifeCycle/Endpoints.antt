-- ===== src/LifeCycle/Endpoints.antt =====
-- All requests of the router: those for documents and those of the test adapter.
use nightpass.Base.{
  ◌≡◌, inl, inr, Bool-cases, Bool, true, false, List, Option, Text, Result, err, ℕ, ap,
}
use nightpass.LifeCycle.{ExternalService, Api, Headers}
use nightpass.LifeCycle.Handlers.{Response, World}
use nightpass.LifeCycle.Lookups.{Route, handle, is_write}
use nightpass.LifeCycle.Adapter.{Command, CommandResult, test_setup, test_teardown}
use nightpass.LifeCycle.Access.{caller_in, denial, may_write, handle-denied, handle-reads}

module _ {S D : Type 0} (w : World S D) (parse : Text → Option D) (show_json : D → Text)
    (mint : ℕ → Text → Text) where
  pub data Request : Type 0 where
    for_documents : Route w → Request
    setup : Option (List ExternalService) → List (Command D) → Request
    teardown : Request

  pub data Answer : Type 0 where
    responded : Result (Response D) (Response D) → Answer
    command_results : Result (Response D) (List CommandResult) → Answer

  unfoldable pub serve : Request → Headers → Api S D → Answer × Api S D
  unfolding handle test_setup test_teardown
  serve (for_documents r) h s = let out = handle w r h s in (responded out.0, out.1)
  serve (setup announced commands) h s =
      let out = test_setup w parse show_json mint announced commands s in
      (command_results out.0, out.1)
  serve teardown h s = let out = test_teardown w parse show_json mint s in (responded out.0, out.1)

  abbrev pub for_adapter : Request → Bool
  for_adapter (for_documents r) = false
  for_adapter _ = true

  abbrev pub changes_documents : Request → Bool
  changes_documents (for_documents r) = is_write w r
  changes_documents _ = false

  -- For anyone but the operator no request changes anything, but those of the test adapter, TestSetup and
  -- TestTeardown, before which no guard stands; and each route of documents that writes is answered 401.
  pub serve-denied :
      (q : Request) (h : Headers) (s : Api S D)
      → for_adapter q ≡ false
      → may_write w (caller_in w h s) ≡ false
      → ((serve q h s).1 ≡ s)
        × (changes_documents q ≡ true
            → (serve q h s).0 ≡ responded (err (denial w (caller_in w h s))))
  unfolding serve
  serve-denied (for_documents r) h s own denied = elim (Bool-cases (is_write w r)) [
    | inl writes ↦
        let e = handle-denied w r h s writes denied in
        (ap (λ out. out.1) e, λ _. ap (λ out. responded out.0) e)
    | inr reads ↦ (handle-reads w r h s reads, λ writes. absurd (cc))
  ]
  serve-denied (setup announced commands) h s own denied = absurd (cc)
  serve-denied teardown h s own denied = absurd (cc)
