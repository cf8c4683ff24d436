-- ===== src/VersionIntegrity/Masks.antt =====
-- What a mask frees.
use nightpass.Base.{
  ℕ, zero, suc, ◌+◌, ◌%◌, ◌*◌, ◌/◌, ◌<◌, ◌≡◌, ◌≢◌, inl, inr, refl, sym, ap, ◌∙◌, arith, Bool, true,
  false, ◌||◌, List, [], ◌∷◌, none, some, String, str_eq, eq_iff, Distinct, All, length, any, ◌==◌,
  if◌then◌else◌, ok, >>=-inv, Bool-cases, Option-cases, or_else,
}
use nightpass.PassportAnchor.ContentRoot.{index_of}
use nightpass.PassportAnchor.ContentRoot.Openings.{index_of-get}
use nightpass.VersionIntegrity.{
  bit, set_bit, frees_all, free_fields, claims_something, allowed_mask_for, fields_from,
  fields_from_mask,
}

suc-eq : (i j : ℕ) → (suc i == suc j) ≡ (i == j)
suc-eq i j = ground arith

bit-set_bit : (mask i j : ℕ) → bit (set_bit mask i) j ≡ (i == j || bit mask j)
unfolding bit set_bit
bit-set_bit mask zero zero = ground arith
bit-set_bit mask zero (suc j) =
    let half : (if mask % 2 == 1 then mask else mask + 1) / 2 ≡ mask / 2 = ground arith in
    let apart : (0 == suc j) ≡ false = ground arith in rw (half, apart) refl
bit-set_bit mask (suc i) zero = ground arith
bit-set_bit mask (suc i) (suc j) =
    let half : (2 * set_bit (mask / 2) i + mask % 2) / 2 ≡ set_bit (mask / 2) i = omega arith in
    rw (half, suc-eq i j) (bit-set_bit (mask / 2) i j)

pub bit-zero : (i : ℕ) → bit 0 i ≡ false
unfolding bit
bit-zero zero = refl
bit-zero (suc i) = bit-zero i

-- A mask that does not free everything leaves a slot that is not freed.
frees_all-false :
    (mask real : ℕ) → frees_all mask real ≡ false → (i : ℕ) × (i < real) × (bit mask i ≡ false)
unfolding frees_all bit
frees_all-false mask zero h = absurd (ground arith)
frees_all-false mask (suc real) h = elim (Bool-cases (mask % 2 == 1)) [
  | inr e ↦ (0, omega arith, e)
  | inl e ↦
      let (i, lt, off) = frees_all-false (mask / 2) real (ground arith) in (suc i, omega arith, off)
]

unfoldable names_slot : List String → ℕ → String → Bool
names_slot panel i name = elim (index_of name panel) [ none ↦ false | some k ↦ k == i ]

names_slot-some :
    (panel : List String) (i k : ℕ) (name : String)
    → index_of name panel ≡ some k
    → names_slot panel i name ≡ (k == i)
unfolding names_slot
names_slot-some panel i k name h = rw (h, names_slot) refl

names_slot-none :
    (panel : List String) (i : ℕ) (name : String)
    → index_of name panel ≡ none
    → names_slot panel i name ≡ false
unfolding names_slot
names_slot-none panel i name h = rw (h, names_slot) refl

bit-free_fields :
    (panel names : List String) (mask out i : ℕ)
    → free_fields panel names mask ≡ ok out
    → bit out i ≡ (bit mask i || any (names_slot panel i) names)
unfolding free_fields
bit-free_fields panel [] mask out i h = let same : mask ≡ out = cc in rw same (ground arith)
bit-free_fields panel (name ∷ names) mask out i h = elim (Option-cases (index_of name panel)) [
  | inl e ↦ absurd (cc (rw (e, free_fields) at h))
  | inr (k, e) ↦
      let ih = bit-free_fields panel names (set_bit mask k) out i (rw (e, free_fields) at h) in
      let here = names_slot-some panel i k name e in
      let step = bit-set_bit mask k i in rw here (ih ∙ rw step (ground arith))
]

index_of-injective :
    (f g : String) (fs : List String) (i : ℕ)
    → index_of f fs ≡ some i
    → index_of g fs ≡ some i
    → f ≡ g
index_of-injective f g fs i h k =
    let a = index_of-get f fs i h in let b = index_of-get g fs i k in cc

names_slot-str_eq :
    (panel : List String) (f n : String) (i : ℕ)
    → index_of f panel ≡ some i
    → names_slot panel i n ≡ str_eq f n
names_slot-str_eq panel f n i h = elim (Bool-cases (str_eq f n)) [
  | inl e ↦
      let same : f ≡ n = (eq_iff f n).0 e in
      rw (e, names_slot-some panel i i n (rw same at h)) (ground arith)
  | inr e ↦ elim (Option-cases (index_of n panel)) [
    | inl g ↦ rw (e, names_slot-none panel i n g) refl
    | inr (k, g) ↦ elim (Bool-cases (k == i)) [
      | inr d ↦ rw (e, names_slot-some panel i k n g) d
      | inl d ↦
          let same : k ≡ i = ground arith in
          let fn = index_of-injective f n panel i h (rw same at g) in
          let hit : str_eq f n ≡ true = (eq_iff f n).1 fn in absurd (cc)
    ]
  ]
]

any-names_slot :
    (panel : List String) (f : String) (i : ℕ) (names : List String)
    → index_of f panel ≡ some i
    → any (names_slot panel i) names ≡ any (str_eq f) names
any-names_slot panel f i [] h = refl
any-names_slot panel f i (n ∷ names) h =
    rw (names_slot-str_eq panel f n i h, any-names_slot panel f i names h) refl

str_eq-false : (f g : String) → f ≢ g → str_eq f g ≡ false
str_eq-false f g h = elim (Bool-cases (str_eq f g)) [
  | inl e ↦ absurd (h ((eq_iff f g).0 e))
  | inr e ↦ e
]

any-absent :
    (f : String) (fs : List String) (mask i : ℕ)
    → All (λ g. f ≢ g) fs
    → any (str_eq f) (fields_from fs mask i) ≡ false
unfolding fields_from
any-absent f [] mask i h = refl
any-absent f (g ∷ gs) mask i (differs, h) =
    let off = str_eq-false f g differs in ground (arith, any-absent f gs mask (i + 1) h)

any-str_eq-fields_from :
    (f : String) (fs : List String) (mask i k : ℕ)
    → Distinct (λ g. g) fs
    → index_of f fs ≡ some k
    → any (str_eq f) (fields_from fs mask i) ≡ bit mask (i + k)
unfolding fields_from index_of
any-str_eq-fields_from f [] mask i k d h = absurd (ground arith)
any-str_eq-fields_from f (g ∷ gs) mask i k (apart, d) h = elim (Bool-cases (str_eq g f)) [
  | inl e ↦
      let same : g ≡ f = (eq_iff g f).0 e in
      let first : i + k ≡ i = omega (arith, ap (λ o. or_else o 1) (rw (e, index_of) at h)) in
      let gone = any-absent f gs mask (i + 1) (rw same at apart) in
      let hit : str_eq f g ≡ true = (eq_iff f g).1 (sym same) in rw first (ground arith)
  | inr e ↦ elim (Option-cases (index_of f gs)) [
    | inl g' ↦ absurd (cc (rw (e, g', index_of) at h))
    | inr (j, g') ↦
        let later : i + k ≡ (i + 1) + j =
          omega (arith, ap (λ o. or_else o 0) (rw (e, g', index_of) at h)) in
        let off =
          str_eq-false f g
            (λ same. let hit : str_eq g f ≡ true = (eq_iff g f).1 (sym same) in absurd (cc)) in
        let ih = any-str_eq-fields_from f gs mask (i + 1) j d g' in rw later (ground arith)
  ]
]

index_of-none : (f : String) (fs : List String) → index_of f fs ≡ none → All (λ g. f ≢ g) fs
unfolding index_of
index_of-none f [] h = tt
index_of-none f (g ∷ gs) h = elim (Bool-cases (str_eq g f)) [
  | inl e ↦ absurd (cc (rw (e, index_of) at h))
  | inr e ↦ elim (Option-cases (index_of f gs)) [
    | inr (j, g') ↦ absurd (cc (rw (e, g', index_of) at h))
    | inl g' ↦ (
      (λ same. let hit : str_eq g f ≡ true = (eq_iff g f).1 (sym same) in absurd (cc)),
      index_of-none f gs g',
    )
  ]
]

-- A name that the panel lacks is not among names that were taken.
free_fields-absent :
    (panel names : List String) (mask out : ℕ) (f : String)
    → free_fields panel names mask ≡ ok out
    → index_of f panel ≡ none
    → any (str_eq f) names ≡ false
unfolding free_fields
free_fields-absent panel [] mask out f h a = refl
free_fields-absent panel (n ∷ names) mask out f h a = elim (Option-cases (index_of n panel)) [
  | inl e ↦ absurd (cc (rw (e, free_fields) at h))
  | inr (k, e) ↦
      let ih = free_fields-absent panel names (set_bit mask k) out f (rw (e, free_fields) at h) a in
      let off =
        str_eq-false f n (λ same. let e' : index_of f panel ≡ some k = rw same e in absurd (cc)) in
      ground arith
]

claims_something-same : (real mask out : ℕ) → claims_something real mask ≡ ok out → mask ≡ out
claims_something-same real mask out h = ground arith

-- Where a mask is made for a panel of distinct fields, the fields it frees are exactly those named.
pub fields_from_mask-allowed_mask_for :
    (panel names : List String) (mask : ℕ) (field : String)
    → Distinct (λ f. f) panel
    → allowed_mask_for panel names ≡ ok mask
    → any (str_eq field) (fields_from_mask panel mask) ≡ any (str_eq field) names
unfolding fields_from_mask allowed_mask_for
fields_from_mask-allowed_mask_for panel names mask field d h =
    let (out, freed, h') = >>=-inv (free_fields panel names 0) _ h in
    let same = claims_something-same (length panel) out mask h' in
    elim (Option-cases (index_of field panel)) [
      | inl e ↦
          rw (any-absent field panel mask 0 (index_of-none field panel e))
            (sym (free_fields-absent panel names 0 out field freed e))
      | inr (i, e) ↦
          let listed = any-str_eq-fields_from field panel mask 0 i d e in
          let made : bit mask i ≡ (bit 0 i || any (names_slot panel i) names) =
            rw same at (bit-free_fields panel names 0 out i freed) in
          let start : 0 + i ≡ i = omega arith in
          listed ∙ rw start (made ∙ rw (bit-zero i) (any-names_slot panel field i names e))
    ]

-- A mask that is made leaves some field of a panel that has fields constrained.
pub allowed_mask_for-constrains :
    (panel names : List String) (mask : ℕ)
    → allowed_mask_for panel names ≡ ok mask
    → 0 < length panel
    → (i : ℕ) × (i < length panel) × (bit mask i ≡ false)
unfolding allowed_mask_for
allowed_mask_for-constrains panel names mask h some_field =
    let (out, freed, h') = >>=-inv (free_fields panel names 0) _ h in
    let same = claims_something-same (length panel) out mask h' in
    frees_all-false mask (length panel) (ground arith)
