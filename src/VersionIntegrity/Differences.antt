-- ===== src/VersionIntegrity/Differences.antt =====
-- What the comparison of two versions' slots finds.
use nightpass.Base.{
  ℕ, zero, suc, ◌+◌, ◌<◌, ◌≤◌, ◌≡◌, ◌↔◌, refl, arith, Bool, true, false, List, [], ◌∷◌, none, some,
  String, length, get_elem?, Bool-cases, inl, inr,
}
use native.Mathlib.Decide.{dec_lt}
use nightpass.VersionIntegrity.{
  bit, SlotOpeningLike, slot_differs, difference_from, first_unmasked_difference, changed_from,
  count_changed_slots,
}
use nightpass.VersionIntegrity.Masks.{bit-zero}

module _ (slots_a slots_b : List SlotOpeningLike) where
  abbrev pub differs : ℕ → Bool
  differs i = slot_differs slots_a slots_b i

  -- Every slot from `i` to `j` is freed by the mask or equal in both versions.
  abbrev pub Agrees : ℕ → ℕ → ℕ → Type 0
  Agrees mask i j = (k : ℕ) → i ≤ k → k < j → bit mask k ≡ false → differs k ≡ false

  Agrees-cons :
      (mask i j : ℕ)
      → (bit mask i ≡ false → differs i ≡ false)
      → Agrees mask (i + 1) j
      → Agrees mask i j
  Agrees-cons mask i j here h k a b off = elim (dec_lt i k) [
    | yes lt ↦ h k (omega arith) b off
    | no ge ↦ let same : k ≡ i = omega arith in rw same (here (rw same at off))
  ]

  difference_from-none :
      (fs : List String) (mask i : ℕ)
      → difference_from slots_a slots_b fs mask i ≡ none
      → Agrees mask i (i + length fs)
  unfolding difference_from
  difference_from-none [] mask i h = λ k a b off. absurd (omega arith)
  difference_from-none (f ∷ fs) mask i h =
      let step : (i + 1) + length fs ≡ i + suc (length fs) = omega arith in
      Agrees-cons mask i (i + suc (length fs)) (λ off. ground arith)
        (rw step at (difference_from-none fs mask (i + 1) (ground arith)))

  difference_from-some :
      (fs : List String) (mask i : ℕ) (field : String)
      → difference_from slots_a slots_b fs mask i ≡ some field
      → (k : ℕ) × (get_elem? fs k ≡ some field)
        × (bit mask (i + k) ≡ false)
        × (differs (i + k) ≡ true)
        × Agrees mask i (i + k)
  unfolding difference_from
  difference_from-some [] mask i field h = absurd (cc)
  difference_from-some (f ∷ fs) mask i field h = elim (Bool-cases (bit mask i)) [
    | inl freed ↦
        later (λ off. absurd (cc))
          (difference_from-some fs mask (i + 1) field (rw (freed, difference_from) at h))
    | inr on ↦ elim (Bool-cases (differs i)) [
      | inr same ↦
          later (λ off. same)
            (difference_from-some fs mask (i + 1) field (rw (on, same, difference_from) at h))
      | inl d ↦
          let start : i + 0 ≡ i = omega arith in
          (
            0,
            cc (rw (on, d, difference_from) at h),
            rw start on,
            rw start d,
            λ k a b. absurd (omega arith),
          )
    ]
  ]
    where
      later :
          (bit mask i ≡ false → differs i ≡ false)
          → (k : ℕ) × (get_elem? fs k ≡ some field)
            × (bit mask ((i + 1) + k) ≡ false)
            × (differs ((i + 1) + k) ≡ true)
            × Agrees mask (i + 1) ((i + 1) + k)
          → (k : ℕ) × (get_elem? (f ∷ fs) k ≡ some field)
            × (bit mask (i + k) ≡ false)
            × (differs (i + k) ≡ true)
            × Agrees mask i (i + k)
      later here (k, e, on, d, before) =
          let step : (i + 1) + k ≡ i + suc k = omega arith in
          (
            suc k,
            e,
            rw step at on,
            rw step at d,
            Agrees-cons mask i (i + suc k) here (rw step at before),
          )

  difference_from_all :
      (fs : List String) (mask i : ℕ)
      → Agrees mask i (i + length fs)
      → difference_from slots_a slots_b fs mask i ≡ none
  unfolding difference_from
  difference_from_all [] mask i h = refl
  difference_from_all (f ∷ fs) mask i h =
      let rest = difference_from_all fs mask (i + 1) (λ k a b. h k (omega arith) (omega arith)) in
      elim (Bool-cases (bit mask i)) [
        | inl freed ↦ rw (freed, rest) refl
        | inr on ↦ rw (on, h i (omega arith) (omega arith) on, rest) refl
      ]

  pub first_unmasked_difference-none_iff :
      (panel : List String) (mask : ℕ)
      → (first_unmasked_difference slots_a slots_b panel mask ≡ none) ↔ Agrees mask 0 (length panel)
  unfolding first_unmasked_difference
  first_unmasked_difference-none_iff panel mask =
      let start : 0 + length panel ≡ length panel = omega arith in
      (
        (λ h. rw start at (difference_from-none panel mask 0 h)),
        λ h. difference_from_all panel mask 0 (rw start h),
      )

  -- The field that is reported is that of the first slot that the mask does not free and that differs.
  pub first_unmasked_difference-some :
      (panel : List String) (mask : ℕ) (field : String)
      → first_unmasked_difference slots_a slots_b panel mask ≡ some field
      → (k : ℕ) × (get_elem? panel k ≡ some field)
        × (bit mask k ≡ false)
        × (differs k ≡ true)
        × Agrees mask 0 k
  unfolding first_unmasked_difference
  first_unmasked_difference-some panel mask field h =
      let (k, e, on, d, before) = difference_from-some panel mask 0 field h in
      let start : 0 + k ≡ k = omega arith in
      (k, e, rw start at on, rw start at d, rw start at before)

  changed_from_bound : (n i : ℕ) → changed_from slots_a slots_b n i ≤ n
  unfolding changed_from
  changed_from_bound zero i = omega arith
  changed_from_bound (suc n) i = ground (arith, changed_from_bound n (i + 1))

  changed_from-zero_iff : (n i : ℕ) → (changed_from slots_a slots_b n i ≡ 0) ↔ Agrees 0 i (i + n)
  unfolding changed_from
  changed_from-zero_iff zero i = ((λ h k a b. absurd (omega arith)), λ h. refl)
  changed_from-zero_iff (suc n) i =
      let (there, back) = changed_from-zero_iff n (i + 1) in
      let step : (i + 1) + n ≡ i + suc n = omega arith in
      elim (Bool-cases (differs i)) [
        | inl d ↦ (
          (λ h. absurd (ground arith)),
          λ h.
              let same : differs i ≡ false = h i (omega arith) (omega arith) (bit-zero i) in
              absurd (cc),
        )
        | inr same ↦ (
          (λ h. Agrees-cons 0 i (i + suc n) (λ off. same) (rw step at (there (ground arith)))),
          λ h. rw same (back (λ k a b. h k (omega arith) (omega arith))),
        )
      ]

  -- The count of changed slots is at most the size of the panel, and zero exactly if the mask that
  -- frees nothing has no difference to report.
  pub count_changed_slots-zero_iff :
      (panel : List String)
      → (count_changed_slots slots_a slots_b panel ≤ length panel)
        × ((count_changed_slots slots_a slots_b panel ≡ 0)
            ↔ (first_unmasked_difference slots_a slots_b panel 0 ≡ none))
  unfolding count_changed_slots
  count_changed_slots-zero_iff panel =
      let (there, back) = changed_from-zero_iff (length panel) 0 in
      let (none_there, none_back) = first_unmasked_difference-none_iff panel 0 in
      let start : 0 + length panel ≡ length panel = omega arith in
      (
        changed_from_bound (length panel) 0,
        ((λ h. none_back (rw start at (there h))), λ h. back (rw start (none_there h))),
      )
