-- ===== src/ChainLane/Ids.antt =====
-- Which id a claim is joined with.
use nightpass.Base.{
  ◌≡◌, refl, sym, ◌∙◌, arith, List, [], ◌∷◌, ◌++◌, Option, none, some, Text, text_eq, if◌then◌else◌,
}
use nightpass.Base.Maps.{TextMap, lookup, lookup-insert}
use nightpass.ChainLane.{
  ResponseEntry, Source, entry_of, put, add_all, add_sources, list_of, claim_ids_by_key, first_some,
}

-- The id of an element, if the element has the key.
abbrev id_at : Text → Option (Text × Text) → Option Text
id_at key none = none
id_at key (some (k, id)) = if text_eq k key then some id else none

-- The id of the last element that has the key.
pub last_id : Text → List ResponseEntry → Option Text
last_id key [] = none
last_id key (c ∷ cs) = first_some (last_id key cs) (id_at key (entry_of c))

abbrev pub all_entries : List Source → List ResponseEntry
all_entries [] = []
all_entries (src ∷ srcs) = list_of src ++ all_entries srcs

lookup-put :
    (key : Text) (e : Option (Text × Text)) (out : TextMap Text)
    → lookup key (put e out) ≡ first_some (id_at key e) (lookup key out)
lookup-put key none out = refl
lookup-put key (some (k, id)) out = ground (arith, lookup-insert k key id out)

first_some_assoc :
    (a b c : Option Text) → first_some a (first_some b c) ≡ first_some (first_some a b) c
first_some_assoc none b c = refl
first_some_assoc (some a) b c = refl

lookup-add_all :
    (key : Text) (cs : List ResponseEntry) (out : TextMap Text)
    → lookup key (add_all cs out) ≡ first_some (last_id key cs) (lookup key out)
unfolding add_all last_id
lookup-add_all key [] out = refl
lookup-add_all key (c ∷ cs) out =
    rw (lookup-add_all key cs, lookup-put key (entry_of c)) (first_some_assoc (last_id key cs) _ _)

last_id-append :
    (key : Text) (cs ds : List ResponseEntry)
    → last_id key (cs ++ ds) ≡ first_some (last_id key ds) (last_id key cs)
unfolding last_id
last_id-append key [] ds = ground arith
last_id-append key (c ∷ cs) ds =
    rw (last_id-append key cs ds)
      (sym (first_some_assoc (last_id key ds) (last_id key cs) (id_at key (entry_of c))))

lookup-add_sources :
    (key : Text) (srcs : List Source) (out : TextMap Text)
    → lookup key (add_sources srcs out)
      ≡ first_some (last_id key (all_entries srcs)) (lookup key out)
unfolding add_sources last_id
lookup-add_sources key [] out = refl
lookup-add_sources key (src ∷ srcs) out =
    rw
      (
        lookup-add_sources key srcs,
        lookup-add_all key (list_of src),
        last_id-append key (list_of src),
      )
      (first_some_assoc (last_id key (all_entries srcs)) _ _)

-- A claim is joined with the id of the last element, over all sources in order, that has an id and
-- the claim's key, and with none if there is no such element.
pub lookup-claim_ids_by_key :
    (key : Text) (sources : List Source)
    → lookup key (claim_ids_by_key sources) ≡ last_id key (all_entries sources)
unfolding claim_ids_by_key lookup
lookup-claim_ids_by_key key sources = lookup-add_sources key sources [] ∙ ground arith
