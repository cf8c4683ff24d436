-- ===== src/Base/Acts.antt =====
-- Actions on a state that may throw: the changes made before a throw stay.
use mathlib.Core.Path.{◌≡◌, refl}
use mathlib.Core.Bool.{Bool, true, false, ◌&&◌}
use nightpass.Base.Results.{Result, ok, err, is_ok}

abbrev pub Act : Type 0 → Type 0 → Type 0 → Type 0
Act S E A = S → Result E A × S

module _ {S E : Type 0} where
  abbrev pub then : {A B : Type 0} → Result E A × S → (A → Act S E B) → Result E B × S
  then (ok a, s) later = later a s
  then (err e, s) later = (err e, s)

  infixl 5 ◌>>=◌ ◌>>◌
  abbrev pub ◌>>=◌ : {A B : Type 0} → Act S E A → (A → Act S E B) → Act S E B
  (m >>= later) s = then (m s) later

  abbrev pub ◌>>◌ : {A B : Type 0} → Act S E A → Act S E B → Act S E B
  m >> later = m >>= λ _. later

  abbrev pub return : {A : Type 0} → A → Act S E A
  return a s = (ok a, s)

  -- The answer of a call.
  abbrev pub lift : {A : Type 0} → Result E A → Act S E A
  lift r s = (r, s)

  abbrev pub modify : (S → S) → Act S E (Unit {0})
  modify f s = (ok tt, f s)

  -- `if (!test) throw e`
  abbrev pub demand : Bool → E → Act S E (Unit {0})
  demand true e s = (ok tt, s)
  demand false e s = (err e, s)

  -- `try { m } finally { f }`
  abbrev pub finally : {A : Type 0} → Act S E A → (S → S) → Act S E A
  finally m f s = ((m s).0, f (m s).1)

  then-is_ok :
      {A B : Type 0} (r : Result E A × S) (f : A → Act S E B) (b c : Bool)
      → is_ok r.0 ≡ b
      → ((x : A) (t : S) → is_ok (f x t).0 ≡ c)
      → is_ok (then r f).0 ≡ (b && c)
  then-is_ok (ok a, s) f b c h g = rw (← h) (g a s)
  then-is_ok (err e, s) f b c h g = rw (← h) refl

  -- Where it does not depend on the state whether the rest returns, a chain returns exactly if its
  -- first action and the rest do.
  pub is_ok-bind :
      {A B : Type 0} (m : Act S E A) (f : A → Act S E B) (s : S) (b c : Bool)
      → is_ok (m s).0 ≡ b
      → ((x : A) (t : S) → is_ok (f x t).0 ≡ c)
      → is_ok ((m >>= f) s).0 ≡ (b && c)
  is_ok-bind m f s b c h g = then-is_ok (m s) f b c h g

  then-state :
      {A B : Type 0} (P : S → Type 0) (r : Result E A × S) (f : A → Act S E B)
      → (is_ok r.0 ≡ false → P r.1)
      → ((x : A) → r.0 ≡ ok x → P (f x r.1).1)
      → P (then r f).1
  then-state P (ok a, s) f h g = g a refl
  then-state P (err e, s) f h g = h refl

  -- What holds of the state after a chain: of that after its first action, if it throws, else of that
  -- after the rest.
  pub bind-state :
      {A B : Type 0} (P : S → Type 0) (m : Act S E A) (f : A → Act S E B) (s : S)
      → (is_ok (m s).0 ≡ false → P (m s).1)
      → ((x : A) → (m s).0 ≡ ok x → P (f x (m s).1).1)
      → P ((m >>= f) s).1
  bind-state P m f s h g = then-state P (m s) f h g
