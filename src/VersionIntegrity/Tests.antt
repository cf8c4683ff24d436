-- ===== src/VersionIntegrity/Tests.antt =====
-- Masks and comparisons of a panel of three fields.
use nightpass.Base.{
  ◌≡◌, refl, true, List, [], ◌∷◌, none, some, String, str_eq, Text, codes, lower, text_eq, join,
  any, Distinct, ok, err,
}
use nightpass.PassportAnchor.ContentRoot.{index_of}
use nightpass.VersionIntegrity.{
  bit, set_bit, frees_all, free_fields, allowed_mask_for, fields_from, fields_from_mask,
  describe_mask, SlotOpeningLike, slots_equal, difference_from, first_unmasked_difference,
  changed_from, count_changed_slots, not_provable, frees_everything,
}
use nightpass.VersionIntegrity.Masks.{fields_from_mask-allowed_mask_for}

opened : Unit {0}
unfolding bit set_bit frees_all free_fields allowed_mask_for fields_from fields_from_mask
    describe_mask slots_equal difference_from first_unmasked_difference changed_from
    count_changed_slots index_of lower text_eq join
opened = tt

abbrev panel : List String
panel = "co2" ∷ "cycles" ∷ "chem" ∷ []

abbrev number : Text → SlotOpeningLike
number v = record { present = true; value = some v; value_digest = none }

abbrev digest : Text → SlotOpeningLike
digest d = record { present = true; value = none; value_digest = some d }

abbrev before : List SlotOpeningLike
before = number (codes "1") ∷ number (codes "2") ∷ digest (codes "aB") ∷ []

abbrev after : List SlotOpeningLike
after = number (codes "1") ∷ number (codes "3") ∷ digest (codes "Ab") ∷ []

runs :
    (allowed_mask_for panel ("chem" ∷ "cycles" ∷ "chem" ∷ []) ≡ ok 6)
    × (allowed_mask_for panel ("weight" ∷ []) ≡ err (not_provable "weight"))
    × (allowed_mask_for panel ("chem" ∷ "cycles" ∷ "co2" ∷ []) ≡ err frees_everything)
    × (fields_from_mask panel 6 ≡ ("cycles" ∷ "chem" ∷ []))
    × (describe_mask panel 6 ≡ codes "only cycles, chem may have changed")
    × (describe_mask panel 0 ≡ codes "no provable field changed")
    × (first_unmasked_difference before after panel 0 ≡ some "cycles")
    × (first_unmasked_difference before after panel 2 ≡ none)
    × (first_unmasked_difference before [] panel 6 ≡ some "co2")
    × (count_changed_slots before after panel ≡ 1)
unfolding opened
runs = (refl, refl, refl, refl, refl, refl, refl, refl, refl, refl)

panel-Distinct : Distinct (λ f. f) panel
panel-Distinct = (((λ e. cc), ((λ e. cc), tt)), (((λ e. cc), tt), (tt, tt)))

abbrev named : List String
named = "chem" ∷ "cycles" ∷ "chem" ∷ []

fields_from_mask-allowed_mask_for_example :
    any (str_eq "chem") (fields_from_mask panel 6) ≡ any (str_eq "chem") named
fields_from_mask-allowed_mask_for_example =
    fields_from_mask-allowed_mask_for panel named 6 "chem" panel-Distinct runs.0
