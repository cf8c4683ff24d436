-- ===== src/LifeCycle/Tests.antt =====
-- The API over a store that is a list, with texts as documents.
use nightpass.Base.{
  ℕ, ◌≡◌, refl, Bool, true, false, not, List, [], ◌∷◌, ◌++◌, find, Option, none, some, Text, codes,
  text_eq, lower, is_empty, if◌then◌else◌, ok, err, Ensures,
}
use nightpass.Base.Maps.{lookup, insert}
use nightpass.Base.Patterns.{skip_spaces}
use nightpass.Base.Splits.{trim, drop_end}
use nightpass.LifeCycle.{
  authority, DppVersion, StoreOps, DocOps, Api, Headers, operator, reader, role_of, credential,
  without_scheme, after_word, read_role, view,
}
use nightpass.LifeCycle.Handlers.{
  ended, failed, served, named, World, write_guard, read_guard, market_dpp, backup_update,
  post_dpps, get_dpp, get_collection, get_element_at, write_document, patch_document, delete_dpp,
  patch_collection, patch_element_at,
}
use nightpass.LifeCycle.Lookups.{
  handle, create, change, read, read_element, get_verification, get_by_product,
  get_by_product_and_date, post_by_products, ids_of,
}
use nightpass.LifeCycle.Access.{caller_in, denial, may_write}
use nightpass.LifeCycle.Endpoints.{
  Request, for_documents, responded, serve, changes_documents, serve-denied,
}
use nightpass.LifeCycle.Views.{Disclosed, handle-Disclosed}
use nightpass.LifeCycle.Adapter.{
  issued, at_name, pick, issue_credentials, run_command, run_commands, test_setup,
}
use nightpass.LifeCycle.Adapter.Grants.{ask_operator, test_setup-operator}

opened : Unit {0}
unfolding role_of credential without_scheme after_word read_role view write_guard read_guard
    market_dpp backup_update post_dpps get_dpp get_collection get_element_at write_document
    patch_document delete_dpp patch_collection patch_element_at handle get_verification
    get_by_product get_by_product_and_date post_by_products ids_of at_name pick issue_credentials
    run_command run_commands test_setup lookup insert skip_spaces trim drop_end lower text_eq
opened = tt

abbrev Rows : Type 0
Rows = List (DppVersion Text)

abbrev at_id : Text → Rows → Option (DppVersion Text)
at_id id rows = find (λ r. text_eq r.dpp_id id) rows

abbrev replace : Text → Text → Option (DppVersion Text) → Rows → Option (DppVersion Text) × Rows
replace id doc none rows = (none, rows)
replace id doc (some r) rows =
    (some (record r { document = doc }), record r { document = doc } ∷ rows)

abbrev ops : StoreOps Rows Text
ops = record {
  insert_new = λ id product status doc rows.
      let r : DppVersion Text = record {
        dpp_id = codes "d1";
        product_id = codes "p";
        document = doc;
      } in
      (r, r ∷ rows);
  current = at_id;
  update = λ id doc rows. replace id doc (at_id id rows) rows;
  remove_dpp = λ id rows. (at_id id rows, []);
  activate_by_product = λ id rows. (none, rows);
  active_by_product = at_id;
  by_product_and_date = λ id date rows. at_id id rows;
  clear = λ rows. [];
}

-- A role sees a fixed text; a patch is appended.
abbrev docs : DocOps Text
docs = record {
  is_object = λ d. not (is_empty d);
  filter_document = λ level d. codes "filtered";
  merge_patch = λ d p. d ++ p;
  split_path = λ p. p ∷ [];
  get_element = λ d parts. some d;
  patch_element = λ d parts p. p;
  touch_last_update = λ d. d ++ codes "!";
  operator_id = λ d. none;
  wrap = λ name d. name ++ d;
  role_level = λ role. 0;
}

abbrev world : Bool → World Rows Text
world public_host = record {
  ops = ops;
  docs = docs;
  net = λ n call. err (codes "unreachable");
  real = λ id date. none;
  verify_on_chain = λ id. err (codes "x");
  not_after = λ a b. true;
  guide_dpp_id = λ id. id;
  public_host = public_host;
  signed = λ token. if text_eq token (codes "auth") then some (codes "authority") else none;
}

abbrev start : Api Rows Text
start = record {
  store = record { dpp_id = codes "d0"; product_id = codes "p"; document = codes "secret" } ∷ [];
  tokens = [];
  backup_ids = [];
  external_services = [];
  calls = [];
  mirror = [];
}

abbrev no_token : Headers
no_token = record { authorization = []; api_key = [] }

abbrev as_authority : Headers
as_authority = record { authorization = codes "bearer  auth"; api_key = [] }

abbrev body : Option Text
body = some (codes "-new")

runs :
    (role_of false (world false).signed [] as_authority ≡ reader authority)
    × ((handle (world false) (read (codes "d0")) as_authority start).0
        ≡ ok (served 200 (codes "filtered")))
    × ((handle (world false) (read (codes "d0")) no_token start).0
        ≡ ok (served 200 (codes "secret")))
    × ((handle (world false) (change (codes "d0") body) no_token start).0
        ≡ ok (served 200 (codes "secret-new!")))
    × ((handle (world false) (create body) no_token start).0 ≡ ok (named 201 (codes "d1")))
    × ((handle (world true) (create body) no_token start).0
        ≡ err (failed 401 (codes "Unknown or invalid credential")))
    × ((handle (world false) (read (codes "d9")) no_token start).0 ≡ err (ended 404))
unfolding opened
runs = (refl, refl, refl, refl, refl, refl, refl)

abbrev mint : ℕ → Text → Text
mint n role = codes "t"

abbrev with_token : Headers
with_token = record { authorization = []; api_key = codes " t" }

abbrev set_up : Api Rows Text
set_up = (test_setup (world true) (λ s. none) (λ d. d) mint none (ask_operator ∷ []) start).1

setup_runs :
    ((test_setup (world true) (λ s. none) (λ d. d) mint none (ask_operator ∷ []) start).0
      ≡ ok (issued (codes "apiKey") (codes "t") (codes "economic_operator") ∷ []))
    × ((handle (world true) (create body) with_token set_up).0 ≡ ok (named 201 (codes "d1")))
    × (credential with_token ≡ codes "t")
    × (credential no_token ≡ [])
unfolding opened
setup_runs = (refl, refl, refl, refl)

test_setup-operator_example : caller_in (world true) with_token set_up ≡ operator
test_setup-operator_example =
    test_setup-operator (world true) (λ s. none) (λ d. d) mint start with_token refl setup_runs.2

may_not : may_write (world false) (caller_in (world false) as_authority start) ≡ false
unfolding opened
may_not = refl

abbrev edit : Request {S = Rows} {D = Text} (world false) (λ t. none) (λ d. d) mint
edit = for_documents (change (codes "d0") body)

serve-denied_example :
    ((serve (world false) (λ t. none) (λ d. d) mint edit as_authority start).1 ≡ start)
    × (changes_documents (world false) (λ t. none) (λ d. d) mint edit ≡ true
        → (serve (world false) (λ t. none) (λ d. d) mint edit as_authority start).0
          ≡ responded (err (denial (world false) (caller_in (world false) as_authority start))))
serve-denied_example =
    serve-denied (world false) (λ t. none) (λ d. d) mint edit as_authority start refl may_not

handle-Disclosed_example :
    Ensures
      (Disclosed docs authority)
      (handle (world false) (read_element (codes "d0") (codes "mass")) as_authority start).0
handle-Disclosed_example =
    handle-Disclosed (world false) authority (read_element (codes "d0") (codes "mass")) as_authority
      start runs.0
