-- ===== src/Base/Members.antt =====
-- Lists whose members have different keys, and what holds of their members.
use nightpass.Base.Tests.{Bool-cases}
use nightpass.Base.Lists.{any, take, All, Among, Distinct}
use nightpass.Base.Texts.{Text, text_eq, text_eq_iff}
use Prim.Native.Nat.{ℕ, zero, suc}
use mathlib.Core.Path.{◌≡◌, sym}
use mathlib.Core.Logic.{◌≢◌, inl, inr}
use mathlib.Core.Bool.{false}
use mathlib.Core.List.{List, [], ◌∷◌, ◌++◌}
use native.Mathlib.Omega.{arith}

pub All-snoc :
    {A : Type 0} (P : A → Type 0) (x : A) (xs : List A) → All P xs → P x → All P (xs ++ (x ∷ []))
All-snoc P x [] h p = (p, tt)
All-snoc P x (y ∷ ys) (here, h) p = (here, All-snoc P x ys h p)

-- A member with a key that is new is added at the end.
pub Distinct-snoc :
    {A : Type 0} (f : A → Text) (x : A) (xs : List A)
    → any (λ y. text_eq (f y) (f x)) xs ≡ false
    → Distinct f xs
    → Distinct f (xs ++ (x ∷ []))
Distinct-snoc f x [] h d = (tt, tt)
Distinct-snoc f x (y ∷ ys) h (apart, d) = elim (Bool-cases (text_eq (f y) (f x))) [
  | inl e ↦ absurd (ground arith)
  | inr e ↦
      let differs : f y ≢ f x = λ same. cc (sym e, (text_eq_iff (f y) (f x)).1 same) in
      (All-snoc (λ z. f y ≢ f z) x ys apart differs, Distinct-snoc f x ys (rw e at h) d)
]

pub Among-snoc : {A : Type 0} (y x : A) (xs : List A) → Among y xs → Among y (xs ++ (x ∷ []))
Among-snoc y x [] h = absurd h
Among-snoc y x (z ∷ xs) (inl e) = inl e
Among-snoc y x (z ∷ xs) (inr h) = inr (Among-snoc y x xs h)

pub Among-take : {A : Type 0} (x : A) (n : ℕ) (xs : List A) → Among x (take n xs) → Among x xs
Among-take x zero xs h = absurd h
Among-take x (suc n) [] h = absurd h
Among-take x (suc n) (y ∷ ys) (inl e) = inl e
Among-take x (suc n) (y ∷ ys) (inr h) = inr (Among-take x n ys h)
