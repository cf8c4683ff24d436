-- ===== src/LifeCycle/Access.antt =====
-- Who may write, and that reading changes nothing.
use nightpass.Base.{◌≡◌, inl, inr, refl, ◌∙◌, Bool-cases, arith, Bool, true, false, [], codes, err}
use nightpass.Base.Acts.{◌>>=◌, bind-state}
use nightpass.LifeCycle.{Api, Headers, Caller, operator, reader, unknown, role_of, credential}
use nightpass.LifeCycle.Handlers.{
  Response, failed, World, Handler, let_write, let_read, write_guard, read_guard, post_dpps,
  get_dpp, get_collection, get_element_at, patch_document, delete_dpp, patch_collection,
  patch_element_at,
}
use nightpass.LifeCycle.Lookups.{
  Route, handle, is_write, create, change, remove, change_collection, change_element, read,
  read_collection, read_element, read_by_product, read_by_date, read_ids, read_verification,
  get_verification, get_by_product, get_by_product_and_date, post_by_products,
}

module _ {S D : Type 0} (w : World S D) where
  abbrev pub caller_in : Headers → Api S D → Caller
  caller_in h s = role_of w.public_host w.signed s.tokens h

  -- The answer to a caller who may not write.
  abbrev pub denial : Caller → Response D
  denial (reader role) = failed 401 (codes "Role has no update permission")
  denial _ = failed 401 (codes "Unknown or invalid credential")

  abbrev pub may_write : Caller → Bool
  may_write operator = true
  may_write _ = false

  let_write-denied :
      (c : Caller) (s : Api S D) → may_write c ≡ false → let_write w c s ≡ (err (denial c), s)
  let_write-denied operator s h = absurd (cc)
  let_write-denied (reader role) s h = refl
  let_write-denied unknown s h = refl

  write_guard-denied :
      (h : Headers) (s : Api S D)
      → may_write (caller_in h s) ≡ false
      → write_guard w h s ≡ (err (denial (caller_in h s)), s)
  unfolding write_guard
  write_guard-denied h s denied = let_write-denied (caller_in h s) s denied

  -- Every route that writes answers 401 to anyone but the operator, and changes nothing.
  pub handle-denied :
      (r : Route w) (h : Headers) (s : Api S D)
      → is_write w r ≡ true
      → may_write (caller_in h s) ≡ false
      → handle w r h s ≡ (err (denial (caller_in h s)), s)
  unfolding handle post_dpps patch_document delete_dpp patch_collection patch_element_at
  handle-denied (create body) h s writes denied = rw (write_guard-denied h s denied) refl
  handle-denied (change id body) h s writes denied = rw (write_guard-denied h s denied) refl
  handle-denied (remove id) h s writes denied = rw (write_guard-denied h s denied) refl
  handle-denied (change_collection id path body) h s writes denied =
      rw (write_guard-denied h s denied) refl
  handle-denied (change_element id path body) h s writes denied =
      rw (write_guard-denied h s denied) refl
  handle-denied (read id) h s writes denied = absurd (cc)
  handle-denied (read_verification id) h s writes denied = absurd (cc)
  handle-denied (read_collection id path) h s writes denied = absurd (cc)
  handle-denied (read_element id path) h s writes denied = absurd (cc)
  handle-denied (read_by_product product) h s writes denied = absurd (cc)
  handle-denied (read_by_date product date) h s writes denied = absurd (cc)
  handle-denied (read_ids body) h s writes denied = absurd (cc)

  -- An action that changes nothing.
  abbrev Reads : {A : Type 0} → Handler w A → Type 0
  Reads m = (s : Api S D) → (m s).1 ≡ s

  Reads-bind :
      {A B : Type 0} (m : Handler w A) (f : A → Handler w B)
      → Reads m
      → ((a : A) → Reads (f a))
      → Reads (λ s. (m >>= f) s)
  Reads-bind m f h g s = bind-state (λ t. t ≡ s) m f s (λ e. h s) (λ a e. g a (m s).1 ∙ h s)

  let_read-Reads : (c : Caller) → Reads (let_read w c)
  let_read-Reads operator s = refl
  let_read-Reads (reader role) s = refl
  let_read-Reads unknown s = refl

  read_guard-Reads : (h : Headers) → Reads (read_guard w h)
  unfolding read_guard
  read_guard-Reads h s = let_read-Reads (caller_in h s) s

  -- A route that reads changes nothing.
  pub handle-reads :
      (r : Route w) (h : Headers) (s : Api S D) → is_write w r ≡ false → (handle w r h s).1 ≡ s
  unfolding handle get_verification get_dpp get_collection get_element_at get_by_product
      get_by_product_and_date post_by_products
  handle-reads (create body) h s reads = absurd (cc)
  handle-reads (change id body) h s reads = absurd (cc)
  handle-reads (remove id) h s reads = absurd (cc)
  handle-reads (change_collection id path body) h s reads = absurd (cc)
  handle-reads (change_element id path body) h s reads = absurd (cc)
  handle-reads (read id) h s reads =
      Reads-bind (read_guard w h) _ (read_guard-Reads h) (λ c t. ground arith) s
  handle-reads (read_verification id) h s reads =
      Reads-bind (read_guard w h) _ (read_guard-Reads h) (λ c t. ground arith) s
  handle-reads (read_collection id path) h s reads =
      Reads-bind (read_guard w h) _ (read_guard-Reads h) (λ c t. ground arith) s
  handle-reads (read_element id path) h s reads =
      Reads-bind (read_guard w h) _ (read_guard-Reads h) (λ c t. ground arith) s
  handle-reads (read_by_product product) h s reads =
      Reads-bind (read_guard w h) _ (read_guard-Reads h) (λ c t. ground arith) s
  handle-reads (read_by_date product date) h s reads =
      Reads-bind (read_guard w h) _ (read_guard-Reads h) (λ c t. ground arith) s
  handle-reads (read_ids body) h s reads =
      Reads-bind (read_guard w h) _ (read_guard-Reads h) (λ c t. ground arith) s

  read_guard-unknown :
      (h : Headers) (s : Api S D)
      → caller_in h s ≡ unknown
      → read_guard w h s ≡ (err (denial unknown), s)
  unfolding read_guard
  read_guard-unknown h s e = rw e refl

  reads-unknown :
      (r : Route w) (h : Headers) (s : Api S D)
      → is_write w r ≡ false
      → caller_in h s ≡ unknown
      → handle w r h s ≡ (err (denial unknown), s)
  unfolding handle get_verification get_dpp get_collection get_element_at get_by_product
      get_by_product_and_date post_by_products
  reads-unknown (create body) h s reads e = absurd (cc)
  reads-unknown (change id body) h s reads e = absurd (cc)
  reads-unknown (remove id) h s reads e = absurd (cc)
  reads-unknown (change_collection id path body) h s reads e = absurd (cc)
  reads-unknown (change_element id path body) h s reads e = absurd (cc)
  reads-unknown (read id) h s reads e = rw (read_guard-unknown h s e) refl
  reads-unknown (read_verification id) h s reads e = rw (read_guard-unknown h s e) refl
  reads-unknown (read_collection id path) h s reads e = rw (read_guard-unknown h s e) refl
  reads-unknown (read_element id path) h s reads e = rw (read_guard-unknown h s e) refl
  reads-unknown (read_by_product product) h s reads e = rw (read_guard-unknown h s e) refl
  reads-unknown (read_by_date product date) h s reads e = rw (read_guard-unknown h s e) refl
  reads-unknown (read_ids body) h s reads e = rw (read_guard-unknown h s e) refl

  -- On a public host a request without a credential is answered 401 by every route, and changes
  -- nothing.
  pub handle-public :
      (r : Route w) (h : Headers) (s : Api S D)
      → w.public_host ≡ true
      → credential h ≡ []
      → handle w r h s ≡ (err (failed 401 (codes "Unknown or invalid credential")), s)
  unfolding role_of
  handle-public r h s on_public none_given =
      let e : caller_in h s ≡ unknown = rw (none_given, on_public) refl in
      elim (Bool-cases (is_write w r)) [
        | inr reads ↦ reads-unknown r h s reads e
        | inl writes ↦
            let denied : may_write (caller_in h s) ≡ false = rw e refl in
            handle-denied r h s writes denied ∙ rw e refl
      ]
