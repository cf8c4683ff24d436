-- ===== src/LifeCycle/Handlers.antt =====
-- The routes of the API. A response that is sent early is thrown; a value that is missing where the code
-- asserts it is there crashes.
use nightpass.Base.{
  ℕ, Bool, List, [], ◌∷◌, ◌++◌, find, Option, none, some, is_some, Text, codes, text_eq, is_empty,
  or_else, length, if◌then◌else◌, Result, ok, err,
}
use nightpass.Base.Acts.{Act, ◌>>=◌, ◌>>◌, return, lift, modify}
use nightpass.Base.Maps.{lookup, insert}
use nightpass.LifeCycle.{
  DppVersion, StoreOps, DocOps, ExternalService, ServiceCall, post_dpp, patch_dpp, register_dpp,
  Mirrored, version_row, replacing, Api, RealPassport, Headers, Caller, operator, reader, unknown,
  role_of, view,
}

pub data Response (D : Type 0) : Type 0 where
  ended : (status : ℕ) → Response D
  failed : (status : ℕ) → (text : Text) → Response D
  served : (status : ℕ) → D → Response D
  named : (status : ℕ) → (id : Text) → Response D
  listed : (ids : List Text) → Response D
  verification : (passport : Option Text) → (verified : Bool) → Response D
  crashed : Response D

-- What a component of the API is given from outside: `net` answers the call of a number, `real` is
-- resolveReal, `not_after` is the test of two
-- dates.
pub record World (S D : Type 0) : Type 0 where
  pub ops : StoreOps S D
  pub docs : DocOps D
  pub net : ℕ → ServiceCall D → Result Text Text
  pub real : Text → Option Text → Option (RealPassport D)
  pub verify_on_chain : Text → Result Text Bool
  pub not_after : Text → Text → Bool
  pub guide_dpp_id : Text → Text
  pub public_host : Bool
  pub signed : Text → Option Text

module _ {S D : Type 0} (w : World S D) where
  abbrev pub Handler : Type 0 → Type 0
  Handler = Act (Api S D) (Response D)

  abbrev pub caller : Headers → Handler Caller
  caller h s = (ok (role_of w.public_host w.signed s.tokens h), s)

  abbrev pub let_write : Caller → Handler (Unit {0})
  let_write operator = return tt
  let_write (reader role) = lift (err (failed 401 (codes "Role has no update permission")))
  let_write unknown = lift (err (failed 401 (codes "Unknown or invalid credential")))

  unfoldable pub write_guard : Headers → Handler (Unit {0})
  unfolding role_of
  write_guard h = do c ← caller h; let_write c

  abbrev pub let_read : Caller → Handler Caller
  let_read unknown = lift (err (failed 401 (codes "Unknown or invalid credential")))
  let_read c = return c

  -- `if (roleOf(req).invalid) return fail(...)`
  unfoldable pub read_guard : Headers → Handler Caller
  unfolding role_of
  read_guard h = do c ← caller h; let_read c

  -- A call of the network.
  abbrev pub call_service : ServiceCall D → Handler (Result Text Text)
  call_service call s =
      (ok (w.net (length s.calls) call), record s { calls = s.calls ++ (call ∷ []) })

  abbrev pub mirror : Mirrored D → Handler (Unit {0})
  mirror m = modify (λ s. record s { mirror = s.mirror ++ (m ∷ []) })

  abbrev pub service : Text → Api S D → Option ExternalService
  service kind s = find (λ x. text_eq x.service_type kind) s.external_services

  abbrev pub keep_backup : Text → Result Text Text → Handler (List Text)
  keep_backup dpp_id (ok id) s = (ok [], record s { backup_ids = insert dpp_id id s.backup_ids })
  keep_backup dpp_id (err e) s = (ok ((codes "Backup " ++ e) ∷ []), s)

  abbrev pub back_up : Option ExternalService → DppVersion D → Handler (List Text)
  back_up none row = return []
  back_up (some b) row = do r ← call_service (post_dpp b row.document); keep_backup row.dpp_id r

  abbrev pub registry_error : Result Text Text → List Text
  registry_error (ok body) = []
  registry_error (err e) = (codes "Registry " ++ e) ∷ []

  abbrev pub register : Option ExternalService → DppVersion D → Handler (List Text)
  register none row = return []
  register (some r) row = do
    backup ← (λ s. (ok (or_else (lookup row.dpp_id s.backup_ids) []), s))
    answer ← call_service (
        register_dpp r row.product_id backup
          (or_else (w.docs.operator_id row.document) (codes "EORI-DE-CELLCO-001")))
    return (registry_error answer)

  unfoldable pub market_dpp : DppVersion D → Handler (List Text)
  unfolding lookup insert text_eq
  market_dpp row = do
    backup ← (λ s. (ok (service (codes "Backup") s), s))
    registry ← (λ s. (ok (service (codes "Registry") s), s))
    first ← back_up backup row
    second ← register registry row
    return (first ++ second)

  abbrev pub keep_new_backup : Text → Result Text Text → Handler (Unit {0})
  keep_new_backup dpp_id (ok id) =
      modify (λ s. record s { backup_ids = insert dpp_id id s.backup_ids })
  keep_new_backup dpp_id (err e) = return tt

  abbrev pub update_backup : Option Text → ExternalService → Text → D → Handler (Unit {0})
  update_backup none b dpp_id doc = do r ← call_service (post_dpp b doc); keep_new_backup dpp_id r
  update_backup (some known) b dpp_id doc =
      if is_empty known
      then (do r ← call_service (post_dpp b doc); keep_new_backup dpp_id r)
      else (do r ← call_service (patch_dpp b known doc); return tt)

  abbrev pub update_if : Option ExternalService → Text → D → Handler (Unit {0})
  update_if none dpp_id doc = return tt
  update_if (some b) dpp_id doc = do
    known ← (λ s. (ok (lookup dpp_id s.backup_ids), s))
    update_backup known b dpp_id doc

  unfoldable pub backup_update : Text → D → Handler (Unit {0})
  unfolding lookup insert text_eq
  backup_update dpp_id doc = do
    backup ← (λ s. (ok (service (codes "Backup") s), s))
    update_if backup dpp_id doc

  abbrev pub stored : {A : Type 0} → (S → A × S) → Handler A
  stored f s = (ok (f s.store).0, record s { store = (f s.store).1 })

  -- An object in the body, or 400.
  abbrev pub object_or : Text → Option D → Handler D
  object_or text none = lift (err (failed 400 text))
  object_or text (some d) = if w.docs.is_object d then return d else lift (err (failed 400 text))

  abbrev pub propagated : List Text → DppVersion D → Response D
  propagated [] row = named 201 row.dpp_id
  propagated (e ∷ es) row = failed 400 (codes "DPP stored but propagation failed: " ++ e)

  unfoldable pub post_dpps : Headers → Option D → Handler (Response D)
  unfolding write_guard market_dpp
  post_dpps h body = do
    write_guard h
    doc ← object_or (codes "Request body must be a DPP JSON object") body
    row ← stored (w.ops.insert_new none none none (w.docs.touch_last_update doc))
    mirror (replacing row)
    errors ← market_dpp row
    return (propagated errors row)

  abbrev pub document_of : Option (RealPassport D) → Option D
  document_of none = none
  document_of (some p) = some p.document

  abbrev pub row_document : Option (DppVersion D) → Option D → Option D
  row_document none other = other
  row_document (some row) other = some row.document

  -- `resolveDoc`
  abbrev pub resolve_doc : Text → Handler (Option D)
  resolve_doc id s =
      (ok (row_document (w.ops.current id s.store) (document_of (w.real id none))), s)

  abbrev pub found : {A : Type 0} → Option A → Handler A
  found none = lift (err (ended 404))
  found (some a) = return a

  unfoldable pub get_dpp : Headers → Text → Handler (Response D)
  unfolding read_guard view
  get_dpp h id = do
    c ← read_guard h
    o ← resolve_doc id
    doc ← found o
    return (served 200 (view w.docs c doc))

  unfoldable pub get_collection : Headers → Text → Text → Handler (Response D)
  unfolding read_guard view
  get_collection h id element = do
    c ← read_guard h
    o ← resolve_doc id
    doc ← found o
    el ← found (w.docs.get_element doc (w.docs.split_path element))
    return (served 200 (view w.docs c el))

  -- The last name of a path.
  abbrev pub leaf_of : List Text → Text
  leaf_of [] = codes "undefined"
  leaf_of (p ∷ []) = p
  leaf_of (p ∷ q ∷ ps) = leaf_of (q ∷ ps)

  -- A role is served the element of the filtered document, or 404.
  abbrev pub seen_element : Caller → D → List Text → D → Handler D
  seen_element (reader role) doc parts el =
      found (w.docs.get_element (w.docs.filter_document (w.docs.role_level role) doc) parts)
  seen_element operator doc parts el = return el
  seen_element unknown doc parts el = return el

  unfoldable pub get_element_at : Headers → Text → Text → Handler (Response D)
  unfolding read_guard
  get_element_at h id path = do
    c ← read_guard h
    o ← resolve_doc id
    doc ← found o
    el ← found (w.docs.get_element doc (w.docs.split_path path))
    seen ← seen_element c doc (w.docs.split_path path) el
    return (served 200 (w.docs.wrap (leaf_of (w.docs.split_path path)) seen))

  -- A row of the store; an anchored passport is refused, anything else is not there.
  abbrev pub row_or : Text → Option (DppVersion D) → Handler (DppVersion D)
  row_or id (some row) = return row
  row_or id none =
      if is_some (w.real id none)
      then lift (err (failed 400 (codes "Anchored NIGHTPASS passports are immutable")))
      else lift (err (ended 404))

  abbrev pub current_or : Text → Handler (DppVersion D)
  current_or id s = row_or id (w.ops.current id s.store) s

  -- `updated!`
  abbrev pub asserted : Option (DppVersion D) → Handler (DppVersion D)
  asserted none = lift (err crashed)
  asserted (some row) = return row

  -- What the three updates share: the new document is stored, mirrored and backed up.
  unfoldable pub write_document : Text → D → Handler (DppVersion D)
  unfolding backup_update
  write_document id doc = do
    o ← stored (w.ops.update id (w.docs.touch_last_update doc))
    updated ← asserted o
    mirror (version_row updated)
    backup_update id updated.document
    return updated

  unfoldable pub patch_document : Headers → Text → Option D → Handler (Response D)
  unfolding write_guard write_document
  patch_document h id body = do
    write_guard h
    row ← current_or id
    change ← object_or (codes "Merge patch body required") body
    updated ← write_document id (w.docs.merge_patch row.document change)
    return (served 200 updated.document)

  unfoldable pub delete_dpp : Headers → Text → Handler (Response D)
  unfolding write_guard
  delete_dpp h id = do
    write_guard h
    o ← stored (w.ops.remove_dpp id)
    row ← row_or id o
    mirror (version_row row)
    return (ended 200)

  abbrev pub shown : Option D → Response D
  shown none = ended 200
  shown (some d) = served 200 d

  unfoldable pub patch_collection : Headers → Text → Text → Option D → Handler (Response D)
  unfolding write_guard write_document
  patch_collection h id element body = do
    write_guard h
    row ← current_or id
    there ← found (w.docs.get_element row.document (w.docs.split_path element))
    change ← object_or (codes "Merge patch body required") body
    updated ←
        write_document id (w.docs.patch_element row.document (w.docs.split_path element) change)
    return (shown (w.docs.get_element updated.document (w.docs.split_path element)))

  abbrev pub given : Option D → Handler D
  given none = lift (err (failed 400 (codes "Patch body required")))
  given (some d) = return d

  unfoldable pub patch_element_at : Headers → Text → Text → Option D → Handler (Response D)
  unfolding write_guard write_document
  patch_element_at h id path body = do
    write_guard h
    row ← current_or id
    change ← given body
    updated ← write_document id (w.docs.patch_element row.document (w.docs.split_path path) change)
    return (shown (w.docs.get_element updated.document (w.docs.split_path path)))
