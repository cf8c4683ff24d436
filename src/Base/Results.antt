-- ===== src/Base/Results.antt =====
-- A computation that may throw: the value, or the error of the `throw` that was reached.
use mathlib.Core.Path.{◌≡◌, refl}
use mathlib.Core.Bool.{Bool, true, false, ◌&&◌}

pub data Result {ℓ} (E A : Type ℓ) : Type ℓ where
  ok : A → Result E A
  err : E → Result E A

module _ {ℓ} {E A B : Type ℓ} where
  infixl 5 ◌>>=◌ ◌>>◌
  -- A later step runs on the value of the one before it, and not at all after a throw.
  abbrev pub ◌>>=◌ : Result E A → (A → Result E B) → Result E B
  ◌>>=◌ step later = elim step [ ok value ↦ later value | err thrown ↦ err thrown ]

  abbrev pub ◌>>◌ : Result E A → Result E B → Result E B
  ◌>>◌ step later = step >>= λ _. later

-- `if (!test) throw e`
abbrev pub require {ℓ} : {E : Type ℓ} → Bool → E → Result E (Unit {ℓ})
require true e = ok tt
require false e = err e

pub require-eq-ok {ℓ} : {E : Type ℓ} (b : Bool) (e : E) → require b e ≡ ok tt → b ≡ true
require-eq-ok true e h = refl
require-eq-ok false e h = cc

abbrev pub is_ok {ℓ} : {E A : Type ℓ} → Result E A → Bool
is_ok (ok a) = true
is_ok (err e) = false

-- What holds of the value, if one is returned.
abbrev pub Ensures {ℓ κ} : {E A : Type ℓ} → (A → Type κ) → Result E A → Type κ
Ensures P (ok a) = P a
Ensures P (err e) = Unit

pub Ensures-bind {ℓ κ} :
    {E A B : Type ℓ} (P : B → Type κ) (m : Result E A) (f : A → Result E B)
    → ((a : A) → m ≡ ok a → Ensures P (f a))
    → Ensures P (m >>= f)
Ensures-bind P (ok a) f h = h a refl
Ensures-bind P (err e) f h = tt

pub Ensures-elim {ℓ κ} :
    {E A : Type ℓ} (P : A → Type κ) {r : Result E A} {a : A} → Ensures P r → r ≡ ok a → P a
Ensures-elim P h e = rw e at h

pub Ensures-require {ℓ κ} :
    {E A : Type ℓ} (P : A → Type κ) (b : Bool) (e : E) (m : Result E A)
    → (b ≡ true → Ensures P m)
    → Ensures P (require b e >> m)
Ensures-require P true e m h = h refl
Ensures-require P false e m h = tt

-- A chain returns exactly if its first step does and, after it, the rest does.
pub is_ok-bind {ℓ} :
    {E A B : Type ℓ} (m : Result E A) (f : A → Result E B) (b : Bool)
    → ((a : A) → m ≡ ok a → is_ok (f a) ≡ b)
    → is_ok (m >>= f) ≡ (is_ok m && b)
is_ok-bind (ok a) f b h = h a refl
is_ok-bind (err e) f b h = refl

pub >>=-inv {ℓ} :
    {E A B : Type ℓ} (m : Result E A) (f : A → Result E B) {b : B}
    → (m >>= f) ≡ ok b
    → (a : A) × (m ≡ ok a) × (f a ≡ ok b)
>>=-inv (err e) f h = cc
>>=-inv (ok a) f h = (a, refl, h)

pub ok-inj {ℓ} : {E A : Type ℓ} {x y : A} → Path (Result E A) (ok x) (ok y) → x ≡ y
ok-inj h = cc
