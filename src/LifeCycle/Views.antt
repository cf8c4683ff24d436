-- ===== src/LifeCycle/Views.antt =====
-- What a role is served.
use nightpass.Base.{
  ◌≡◌, ◌⊎◌, inl, inr, refl, true, false, List, Option, none, some, Text, is_empty, Result, ok,
  Bool-cases, Ensures,
}
use nightpass.Base.Acts.{◌>>=◌, return}
use nightpass.LifeCycle.{DppRole, DppVersion, RealPassport, DocOps, Api, Headers, reader, view}
use nightpass.LifeCycle.Handlers.{
  Response, served, listed, World, Handler, read_guard, found, leaf_of, seen_element, get_dpp,
  get_collection, get_element_at,
}
use nightpass.LifeCycle.Lookups.{
  Route, array_or, ids_of, handle, is_write, create, change, remove, change_collection,
  change_element, read, read_collection, read_element, read_by_product, read_by_date, read_ids,
  read_verification, get_verification, verification_of, get_by_product, get_by_product_and_date,
  post_by_products,
}
use nightpass.LifeCycle.Access.{caller_in, may_write, handle-denied}

-- A document that was filtered for the role, or an element of one that was, under a name.
abbrev pub IsFiltered : {D : Type 0} → DocOps D → DppRole → D → Type 0
IsFiltered {D} docs role d =
    ((x : D) × (d ≡ docs.filter_document (docs.role_level role) x))
    ⊎ ((x : D) × (e : D) × (parts : List Text) × (leaf : Text) × (docs.get_element
            (docs.filter_document (docs.role_level role) x) parts
          ≡ some e)
        × (d ≡ docs.wrap leaf e))

-- What is served to the role is filtered; other answers have no document.
abbrev pub Disclosed : {D : Type 0} → DocOps D → DppRole → Response D → Type 0
Disclosed docs role (served status d) = IsFiltered docs role d
Disclosed docs role _ = Unit

module _ {S D : Type 0} (w : World S D) (role : DppRole) where
  abbrev Safe : Result (Response D) (Response D) × Api S D → Type 0
  Safe r = Ensures (Disclosed w.docs role) r.0

  found-Safe :
      {A : Type 0} (o : Option A) (f : A → Handler w (Response D)) (s : Api S D)
      → ((a : A) → o ≡ some a → Safe (f a s))
      → Safe ((found w o >>= f) s)
  found-Safe none f s h = tt
  found-Safe (some a) f s h = h a refl

  read_guard-reader :
      (h : Headers) (s : Api S D)
      → caller_in w h s ≡ reader role
      → read_guard w h s ≡ (ok (reader role), s)
  unfolding read_guard
  read_guard-reader h s e = rw e refl

  -- The document is filtered and served.
  abbrev serves : D → Handler w (Response D)
  serves doc = return (served 200 (view w.docs (reader role) doc))

  serves-Safe : (o : Option D) (s : Api S D) → Safe ((found w o >>= serves) s)
  unfolding view
  serves-Safe o s = found-Safe o serves s (λ doc _. inl (doc, refl))

  -- An element of the document is filtered and served.
  abbrev serves_element : List Text → D → Handler w (Response D)
  serves_element parts doc s = (found w (w.docs.get_element doc parts) >>= serves) s

  -- An element of the filtered document is served.
  abbrev serves_within : List Text → D → D → Handler w (Response D)
  serves_within parts doc el s =
      (seen_element w (reader role) doc parts el >>= λ seen.
      return (served 200 (w.docs.wrap (leaf_of w parts) seen)))
        s

  serves_within-Safe :
      (parts : List Text) (doc el : D) (s : Api S D) → Safe (serves_within parts doc el s)
  serves_within-Safe parts doc el s =
      found-Safe (w.docs.get_element (w.docs.filter_document (w.docs.role_level role) doc) parts)
        (λ seen. return (served 200 (w.docs.wrap (leaf_of w parts) seen))) s
        (λ seen is_seen. inr (doc, seen, parts, leaf_of w parts, is_seen, refl))

  -- A route that writes serves a role nothing.
  write-Safe :
      (r : Route w) (h : Headers) (s : Api S D)
      → is_write w r ≡ true
      → caller_in w h s ≡ reader role
      → Safe (handle w r h s)
  write-Safe r h s writes e =
      let denied : may_write w (caller_in w h s) ≡ false = rw e refl in
      rw (handle-denied w r h s writes denied) tt

  -- Whatever route of documents a role asks, one that writes included, a document that it is served was
  -- filtered for the role, or is an element of one that was.
  pub handle-Disclosed :
      (r : Route w) (h : Headers) (s : Api S D)
      → caller_in w h s ≡ reader role
      → Ensures (Disclosed w.docs role) (handle w r h s).0
  unfolding handle get_verification get_dpp get_collection get_element_at get_by_product
      get_by_product_and_date post_by_products view
  handle-Disclosed (create body) h s e = write-Safe (create body) h s refl e
  handle-Disclosed (change id body) h s e = write-Safe (change id body) h s refl e
  handle-Disclosed (remove id) h s e = write-Safe (remove id) h s refl e
  handle-Disclosed (change_collection id path body) h s e =
      write-Safe (change_collection id path body) h s refl e
  handle-Disclosed (change_element id path body) h s e =
      write-Safe (change_element id path body) h s refl e
  handle-Disclosed (read id) h s e = rw (read_guard-reader h s e) (serves-Safe _ s)
  handle-Disclosed (read_verification id) h s e =
      rw (read_guard-reader h s e) (verified_only (w.real id none) (w.ops.current id s.store))
    where
      verified_only :
          (p : Option (RealPassport D)) (row : Option (DppVersion D))
          → Safe (verification_of w p row s)
      verified_only (some p) row = tt
      verified_only none (some row) = tt
      verified_only none none = tt
  handle-Disclosed (read_collection id path) h s e =
      rw (read_guard-reader h s e)
        (found-Safe _ (serves_element (w.docs.split_path path)) s (λ doc _. serves-Safe _ s))
  handle-Disclosed (read_element id path) h s e =
      let parts = w.docs.split_path path in
      rw (read_guard-reader h s e) (
        found-Safe _
          (λ doc t. (found w (w.docs.get_element doc parts) >>= serves_within parts doc) t) s
          (λ doc _.
            found-Safe _ (serves_within parts doc) s (λ el _. serves_within-Safe parts doc el s)))
  handle-Disclosed (read_by_product product) h s e = rw (read_guard-reader h s e) (serves-Safe _ s)
  handle-Disclosed (read_by_date product date) h s e =
      rw (read_guard-reader h s e) (elim (Bool-cases (is_empty date)) [
        | inl none_given ↦ rw none_given tt
        | inr dated ↦ rw dated (serves-Safe _ s)
      ])
  handle-Disclosed (read_ids body) h s e = rw (read_guard-reader h s e) (listed_only body)
    where
      listed_only :
          (ids : Option (List Text))
          → Safe ((array_or w ids >>= λ products t. (ok (listed (ids_of w products t)), t)) s)
      listed_only none = tt
      listed_only (some ids) = tt
