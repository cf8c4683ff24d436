-- ===== src/Base/Lists.antt =====
-- Lists measured by native numbers, with Boolean tests, and predicates on lists by recursion.
use Prim.Native.Nat.{ℕ, zero, suc, ◌+◌, ◌≤◌}
use mathlib.Core.Path.{◌≡◌, refl, ap, sym}
use mathlib.Core.Bool.{Bool, true, false, ◌&&◌, ◌||◌, not}
use mathlib.Core.Option.{Option, none, some}
use mathlib.Core.List.{List, [], ◌∷◌, ◌++◌, map}
use native.Mathlib.Omega.{arith}
use mathlib.Core.Logic.{◌≢◌, ◌⊎◌, ◌↔◌, inl, inr}
use nightpass.Base.Tests.{if◌then◌else◌, Bool-cases}

module _ {ℓ} {A : Type ℓ} where
  abbrev pub length : List A → ℕ
  length [] = 0
  length (x ∷ xs) = suc (length xs)

  abbrev pub get_elem? : List A → ℕ → Option A
  get_elem? [] i = none
  get_elem? (x ∷ xs) zero = some x
  get_elem? (x ∷ xs) (suc i) = get_elem? xs i

  abbrev pub take : ℕ → List A → List A
  take zero xs = []
  take (suc n) [] = []
  take (suc n) (x ∷ xs) = x ∷ take n xs

  abbrev pub drop : ℕ → List A → List A
  drop zero xs = xs
  drop (suc n) [] = []
  drop (suc n) (x ∷ xs) = drop n xs

  abbrev pub all : (A → Bool) → List A → Bool
  all p [] = true
  all p (x ∷ xs) = p x && all p xs

  abbrev pub any : (A → Bool) → List A → Bool
  any p [] = false
  any p (x ∷ xs) = p x || any p xs

  -- `xs.filter(p)`
  abbrev pub filter : (A → Bool) → List A → List A
  filter p [] = []
  filter p (x ∷ xs) = if p x then x ∷ filter p xs else filter p xs

  -- `xs.find(p)`
  abbrev pub find : (A → Bool) → List A → Option A
  find p [] = none
  find p (x ∷ xs) = if p x then some x else find p xs

  pub length-append : (xs ys : List A) → length (xs ++ ys) ≡ length xs + length ys
  length-append [] ys = omega arith
  length-append (x ∷ xs) ys = omega (arith, length-append xs ys)

  pub filter-append :
      (p : A → Bool) (xs ys : List A) → filter p (xs ++ ys) ≡ filter p xs ++ filter p ys
  filter-append p [] ys = refl
  filter-append p (x ∷ xs) ys = ground (arith, filter-append p xs ys)

  pub any-append : (q : A → Bool) (xs ys : List A) → any q (xs ++ ys) ≡ (any q xs || any q ys)
  any-append q [] ys = refl
  any-append q (x ∷ xs) ys = ground (arith, any-append q xs ys)

  pub length-filter-le : (p : A → Bool) (xs : List A) → length (filter p xs) ≤ length xs
  length-filter-le p [] = omega arith
  length-filter-le p (x ∷ xs) = ground (arith, length-filter-le p xs)

module _ {ℓ κ} {A : Type ℓ} (P : A → Type κ) where
  abbrev pub All : List A → Type κ
  All [] = Unit
  All (x ∷ xs) = P x × All xs

  pub All-append : (xs ys : List A) → All xs → All ys → All (xs ++ ys)
  All-append [] ys _ h = h
  All-append (x ∷ xs) ys (p, g) h = (p, All-append xs ys g h)

  pub All-append_left : (xs ys : List A) → All (xs ++ ys) → All xs
  All-append_left [] ys h = tt
  All-append_left (x ∷ xs) ys (p, h) = (p, All-append_left xs ys h)

  pub All-append_right : (xs ys : List A) → All (xs ++ ys) → All ys
  All-append_right [] ys h = h
  All-append_right (x ∷ xs) ys (p, h) = All-append_right xs ys h

  pub All-filter : (p : A → Bool) (xs : List A) → All xs → All (filter p xs)
  All-filter p [] h = tt
  All-filter p (x ∷ xs) h = ground (arith, All-filter p xs h.1)

module _ {ℓ} {A : Type ℓ} where
  pub All-filter_self : (p : A → Bool) (xs : List A) → All (λ x. p x ≡ true) (filter p xs)
  All-filter_self p [] = tt
  All-filter_self p (x ∷ xs) = ground (arith, All-filter_self p xs)

  pub All-all : (p : A → Bool) (xs : List A) → all p xs ≡ true → All (λ x. p x ≡ true) xs
  All-all p [] h = tt
  All-all p (x ∷ xs) h = ground (arith, All-all p xs)

module _ {ℓ κ} {A : Type ℓ} {B : Type κ} where
  pub length-map : (f : A → B) (xs : List A) → length (map f xs) ≡ length xs
  length-map f [] = refl
  length-map f (x ∷ xs) = ap suc (length-map f xs)

module _ {ℓ κ} {A : Type ℓ} {B : Type κ} (f : A → B) where
  -- No two members have the same `f`.
  abbrev pub Distinct : List A → Type (ℓ ⊔ κ)
  Distinct [] = Unit
  Distinct (x ∷ xs) = All (λ y. f x ≢ f y) xs × Distinct xs

  pub Distinct-insert :
      (x : A) (xs ys : List A)
      → All (λ y. f x ≢ f y) (xs ++ ys)
      → Distinct (xs ++ ys)
      → Distinct (xs ++ (x ∷ ys))
  Distinct-insert x [] ys fresh d = (fresh, d)
  Distinct-insert x (z ∷ xs) ys (differs, fresh) (apart, d) = (
    All-append _ xs (x ∷ ys) (All-append_left _ xs ys apart)
        ((λ e. differs (sym e)), All-append_right _ xs ys apart),
    Distinct-insert x xs ys fresh d,
  )

module _ {ℓ} {A : Type ℓ} (p : A → Bool) where
  -- Those that pass the test, then the others.
  abbrev pub partition : List A → List A
  partition xs = filter p xs ++ filter (λ x. not (p x)) xs

  pub All-partition {κ} : (P : A → Type κ) (xs : List A) → All P xs → All P (partition xs)
  All-partition P xs h =
      All-append P (filter p xs) _ (All-filter P p xs h) (All-filter P (λ x. not (p x)) xs h)

  pub length-partition : (xs : List A) → length (partition xs) ≡ length xs
  length-partition [] = refl
  length-partition (x ∷ xs) = elim (Bool-cases (p x)) [
    | inl e ↦ rw e (ap suc (length-partition xs))
    | inr e ↦ rw e (
        omega (
          arith,
          length-partition xs,
          length-append {ℓ} (filter p xs) (x ∷ filter (λ x. not (p x)) xs),
          length-append {ℓ} (filter p xs) (filter (λ x. not (p x)) xs),
        ))
  ]

  pub Distinct-partition {κ} :
      {B : Type κ} (f : A → B) (xs : List A) → Distinct f xs → Distinct f (partition xs)
  Distinct-partition f [] d = tt
  Distinct-partition f (x ∷ xs) (apart, d) = elim (Bool-cases (p x)) [
    | inl e ↦ rw e (All-partition _ xs apart, Distinct-partition f xs d)
    | inr e ↦
        rw e (
          Distinct-insert f x (filter p xs) _ (All-partition _ xs apart)
            (Distinct-partition f xs d))
  ]

  pub any-partition : (q : A → Bool) (xs : List A) → any q xs ≡ true → any q (partition xs) ≡ true
  any-partition q [] h = cc
  any-partition q (x ∷ xs) h = ground (
    arith,
    any-partition q xs,
    any-append q (filter p xs) (x ∷ filter (λ x. not (p x)) xs),
    any-append q (filter p xs) (filter (λ x. not (p x)) xs),
  )

-- The element stands in the list.
abbrev pub Among : {A : Type 0} → A → List A → Type 0
Among x [] = ⊥
Among x (y ∷ ys) = (x ≡ y) ⊎ Among x ys

pub All-Among : {A : Type 0} (P : A → Type 0) (xs : List A) (x : A) → All P xs → Among x xs → P x
All-Among P [] x h member = absurd member
All-Among P (y ∷ ys) x (here, h) (inl e) = rw e here
All-Among P (y ∷ ys) x (here, h) (inr member) = All-Among P ys x h member

-- What is found is a member that passes the test.
pub find-Among :
    {A : Type 0} (p : A → Bool) (xs : List A) (x : A)
    → find p xs ≡ some x
    → Among x xs × (p x ≡ true)
find-Among p [] x h = absurd (cc)
find-Among p (y ∷ ys) x h = elim (Bool-cases (p y)) [
  | inl e ↦ let same : y ≡ x = cc (rw e at h) in (inl (sym same), rw same at e)
  | inr e ↦ let (member, holds) = find-Among p ys x (rw e at h) in (inr member, holds)
]

-- A test holds somewhere exactly if a member passes it.
pub any-Among :
    {A : Type 0} (p : A → Bool) (xs : List A)
    → (any p xs ≡ true) ↔ ((x : A) × Among x xs × (p x ≡ true))
any-Among p [] = ((λ h. absurd (cc)), λ (x, member, _). absurd member)
any-Among p (y ∷ ys) =
    let (to, from) = any-Among p ys in
    elim (Bool-cases (p y)) [
      | inl e ↦ ((λ h. (y, inl refl, e)), λ h. rw e refl)
      | inr e ↦ (
        (λ h. let (x, member, on) = to (rw e at h) in (x, inr member, on)),
        λ (x, member, on). elim member [
          | inl same ↦ absurd (cc (rw same at on))
          | inr later ↦ rw e (from (x, later, on))
        ],
      )
    ]

pub find-none :
    {A : Type 0} (p : A → Bool) (xs : List A) → find p xs ≡ none → All (λ x. p x ≡ false) xs
find-none p [] h = tt
find-none p (y ∷ ys) h = elim (Bool-cases (p y)) [
  | inl e ↦ absurd (cc (rw e at h))
  | inr e ↦ (e, find-none p ys (rw e at h))
]
