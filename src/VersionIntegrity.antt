-- ===== src/VersionIntegrity.antt =====
-- srv/lib/version-integrity.ts: masks over the slots of a panel and the comparison of two versions'
-- slots. A 32-bit integer that is used as a mask is its sixteen low bits as a number; panels have at
-- most sixteen fields.
pub mod Masks
pub mod Differences
mod Tests
use nightpass.Base.{
  ℕ, zero, suc, ◌+◌, ◌*◌, ◌/◌, ◌%◌, ◌^◌, Bool, true, false, not, ◌&&◌, ◌||◌, map, ◌-◌, ◌>>=◌, List,
  [], ◌∷◌, ◌++◌, Option, none, some, is_some, String, str_eq, Text, codes, lower, text_eq,
  text_or_empty, length, get_elem?, if◌then◌else◌, ◌==◌, ltb, Result, ok, err, is_empty, join,
}
use nightpass.PassportAnchor.ContentRoot.{index_of}

-- `mask & (1 << i)`, bit by bit
unfoldable pub bit : ℕ → ℕ → Bool
bit mask zero = mask % 2 == 1
bit mask (suc i) = bit (mask / 2) i

-- `mask | (1 << i)`
unfoldable pub set_bit : ℕ → ℕ → ℕ
set_bit mask zero = if mask % 2 == 1 then mask else mask + 1
set_bit mask (suc i) = 2 * set_bit (mask / 2) i + mask % 2

-- `(mask & ((1 << real) - 1)) === ((1 << real) - 1)`
unfoldable pub frees_all : ℕ → ℕ → Bool
frees_all mask zero = true
frees_all mask (suc real) = mask % 2 == 1 && frees_all (mask / 2) real

pub data MaskError : Type 0 where
  not_provable : String → MaskError
  frees_everything : MaskError

-- The loop over the names.
unfoldable pub free_fields : List String → List String → ℕ → Result MaskError ℕ
unfolding index_of
free_fields panel [] mask = ok mask
free_fields panel (name ∷ names) mask = elim (index_of name panel) [
  | none ↦ err (not_provable name)
  | some i ↦ free_fields panel names (set_bit mask i)
]

abbrev pub claims_something : ℕ → ℕ → Result MaskError ℕ
claims_something real mask =
    if ltb 0 real && frees_all mask real then err frees_everything else ok mask

unfoldable pub allowed_mask_for : List String → List String → Result MaskError ℕ
allowed_mask_for panel names =
    free_fields panel names 0 >>= λ mask. claims_something (length panel) mask

-- The fields of the panel from slot `i` on.
unfoldable pub fields_from : List String → ℕ → ℕ → List String
fields_from [] mask i = []
fields_from (f ∷ fs) mask i =
    let rest = fields_from fs mask (i + 1) in if bit mask i then f ∷ rest else rest

unfoldable pub fields_from_mask : List String → ℕ → List String
unfolding fields_from
fields_from_mask panel mask = fields_from panel mask 0

-- Field names are text here.
unfoldable pub describe_mask : List String → ℕ → Text
unfolding fields_from_mask join
describe_mask panel mask = elim (fields_from_mask panel mask) [
  | [] ↦ codes "no provable field changed"
  | f ∷ fs ↦ codes "only " ++ (join (codes ", ") (map codes (f ∷ fs)) ++ codes " may have changed")
]

pub record SlotOpeningLike : Type 0 where
  pub present : Bool
  pub value : Option Text
  pub value_digest : Option Text

-- `!!slot?.present`
abbrev pub is_present : Option SlotOpeningLike → Bool
is_present none = false
is_present (some s) = s.present

abbrev pub digest_of : Option SlotOpeningLike → Option Text
digest_of none = none
digest_of (some s) = s.value_digest

abbrev pub value_of : Option SlotOpeningLike → Option Text
value_of none = none
value_of (some s) = s.value

abbrev pub same_content : Option SlotOpeningLike → Option SlotOpeningLike → Bool
same_content a b =
    if is_some (digest_of a) || is_some (digest_of b)
    then text_eq (lower (text_or_empty (digest_of a))) (lower (text_or_empty (digest_of b)))
    else text_eq (text_or_empty (value_of a)) (text_or_empty (value_of b))

unfoldable pub slots_equal : Option SlotOpeningLike → Option SlotOpeningLike → Bool
unfolding lower text_eq
slots_equal a b =
    if not (is_present a) && not (is_present b)
    then true
    else if is_present a && is_present b
    then same_content a b
    else false

module _ (slots_a slots_b : List SlotOpeningLike) where
  abbrev pub slot_differs : ℕ → Bool
  slot_differs i = not (slots_equal (get_elem? slots_a i) (get_elem? slots_b i))

  -- The rounds of the loop from slot `i` on.
  unfoldable pub difference_from : List String → ℕ → ℕ → Option String
  difference_from [] mask i = none
  difference_from (f ∷ fs) mask i =
      let later = difference_from fs mask (i + 1) in
      if bit mask i then later else if slot_differs i then some f else later

  unfoldable pub first_unmasked_difference : List String → ℕ → Option String
  unfolding difference_from
  first_unmasked_difference panel mask = difference_from panel mask 0

  -- `left` slots from slot `i` on.
  unfoldable pub changed_from : ℕ → ℕ → ℕ
  changed_from zero i = 0
  changed_from (suc left) i =
      let rest = changed_from left (i + 1) in if slot_differs i then suc rest else rest

  unfoldable pub count_changed_slots : List String → ℕ
  unfolding changed_from
  count_changed_slots panel = changed_from (length panel) 0
