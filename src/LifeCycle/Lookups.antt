-- ===== src/LifeCycle/Lookups.antt =====
-- The routes that look documents up by product, the verification of a document, and the router.
use nightpass.Base.{
  Bool, true, false, List, [], ◌∷◌, ◌++◌, Option, none, some, Text, codes, is_empty, if◌then◌else◌,
  Result, ok, err,
}
use nightpass.Base.Acts.{◌>>=◌, return, lift}
use nightpass.LifeCycle.{DppVersion, Api, RealPassport, Headers, view}
use nightpass.LifeCycle.Handlers.{
  Response, ended, failed, served, listed, verification, World, Handler, read_guard, found,
  document_of, row_document, post_dpps, get_dpp, get_collection, get_element_at, patch_document,
  delete_dpp, patch_collection, patch_element_at,
}

module _ {S D : Type 0} (w : World S D) where
  unfoldable pub get_by_product : Headers → Text → Handler w (Response D)
  unfolding read_guard view
  get_by_product h product = do
    c ← read_guard w h
    row ← (λ s. (ok (w.ops.active_by_product product s.store), s))
    doc ← found w (row_document w row (document_of w (w.real product none)))
    return (served 200 (view w.docs c doc))

  -- A passport that was created by the date.
  abbrev pub created_by : Text → Option (RealPassport D) → Option D
  created_by date none = none
  created_by date (some p) = elim p.created_at [
    | none ↦ none
    | some at ↦ if w.not_after at date then some p.document else none
  ]

  unfoldable pub get_by_product_and_date : Headers → Text → Text → Handler w (Response D)
  unfolding read_guard view
  get_by_product_and_date h product date = do
    c ← read_guard w h
    given ←
        (if is_empty date
          then lift (err (failed 400 (codes "Query parameter `date` is required")))
          else return date)
    row ← (λ s. (ok (w.ops.by_product_and_date product date s.store), s))
    doc ← found w (row_document w row (created_by date (w.real product (some date))))
    return (served 200 (view w.docs c doc))

  abbrev pub id_of : Option (DppVersion D) → Option (RealPassport D) → List Text
  id_of (some row) real = row.dpp_id ∷ []
  id_of none (some p) = w.guide_dpp_id p.passport_id ∷ []
  id_of none none = []

  unfoldable pub ids_of : List Text → Api S D → List Text
  ids_of [] s = []
  ids_of (product ∷ products) s =
      id_of (w.ops.active_by_product product s.store) (w.real product none) ++ ids_of products s

  abbrev pub array_or : Option (List Text) → Handler w (List Text)
  array_or none = lift (err (failed 400 (codes "Request body must be an array of product ids")))
  array_or (some ids) = return ids

  unfoldable pub post_by_products : Headers → Option (List Text) → Handler w (Response D)
  unfolding read_guard ids_of
  post_by_products h body = do
    c ← read_guard w h
    products ← array_or body
    (λ s. (ok (listed (ids_of products s)), s))

  -- A verification that throws is reported as not verified.
  abbrev pub or_false : Result Text Bool → Bool
  or_false (ok b) = b
  or_false (err e) = false

  abbrev pub verification_of :
      Option (RealPassport D) → Option (DppVersion D) → Handler w (Response D)
  verification_of (some p) row =
      return (verification (some p.passport_id) (or_false (w.verify_on_chain p.passport_id)))
  verification_of none (some row) = return (verification none false)
  verification_of none none = return (ended 404)

  unfoldable pub get_verification : Headers → Text → Handler w (Response D)
  unfolding read_guard
  get_verification h id = do
    c ← read_guard w h
    row ← (λ s. (ok (w.ops.current id s.store), s))
    verification_of (w.real id none) row

  -- The routes, with what they take from the request.
  pub data Route : Type 0 where
    create : Option D → Route
    change : (id : Text) → Option D → Route
    remove : (id : Text) → Route
    change_collection change_element : (id path : Text) → Option D → Route
    read read_verification : (id : Text) → Route
    read_collection read_element : (id path : Text) → Route
    read_by_product : (product : Text) → Route
    read_by_date : (product date : Text) → Route
    read_ids : Option (List Text) → Route

  unfoldable pub handle : Route → Headers → Handler w (Response D)
  unfolding get_verification get_by_product get_by_product_and_date post_by_products post_dpps
      get_dpp get_collection get_element_at patch_document delete_dpp patch_collection
      patch_element_at
  handle (create body) h = post_dpps w h body
  handle (change id body) h = patch_document w h id body
  handle (remove id) h = delete_dpp w h id
  handle (change_collection id path body) h = patch_collection w h id path body
  handle (change_element id path body) h = patch_element_at w h id path body
  handle (read id) h = get_dpp w h id
  handle (read_verification id) h = get_verification h id
  handle (read_collection id path) h = get_collection w h id path
  handle (read_element id path) h = get_element_at w h id path
  handle (read_by_product product) h = get_by_product h product
  handle (read_by_date product date) h = get_by_product_and_date h product date
  handle (read_ids body) h = post_by_products h body

  abbrev pub is_write : Route → Bool
  is_write (create body) = true
  is_write (change id body) = true
  is_write (remove id) = true
  is_write (change_collection id path body) = true
  is_write (change_element id path body) = true
  is_write _ = false
