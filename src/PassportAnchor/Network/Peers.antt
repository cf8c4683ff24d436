-- ===== src/PassportAnchor/Network/Peers.antt =====
-- What the maps of peers hold, and when chain outcomes are unknown.
use nightpass.Base.{
  ℕ, ◌≡◌, ◌≢◌, refl, arith, Bool, true, false, [], ◌∷◌, ◌++◌, map, Option, none, some, Text,
  is_empty, codes, Bool-cases, All-append, text_eq, text_eq_iff, join, All, Distinct, Lacks, inl,
  inr, ◌⊎◌, if◌then◌else◌, or_else, ◌↔◌,
}
use nightpass.Base.Splits.{trim, split_on, split_on-join, drop_end, Env, variable}
use nightpass.Base.Maps.{TextMap, lookup, insert, lookup-insert}
use nightpass.PassportAnchor.Network.{
  Config, crawler_enabled, chain_confirmation_available, switch, reads_off, cut, is_slash,
  net_entry, part_entry, add_parts, parse_net_map,
}

-- The variable is off, or unset where the configuration says so.
abbrev pub TurnedOff : Option Text → Option Bool → Type 0
TurnedOff variable config =
    ((s : Text) × (variable ≡ some s) × (reads_off s ≡ true))
    ⊎ ((variable ≡ none) × (config ≡ some false))

switch-TurnedOff :
    (on : Bool) (v : Option Text) (config : Option Bool)
    → ((if on then true else switch v (or_else config true)) ≡ false)
      ↔ ((on ≡ false) × TurnedOff v config)
switch-TurnedOff on none config = ground arith
switch-TurnedOff true (some s) config = ground arith
switch-TurnedOff false (some s) config = (
  λ h. (refl, inl (s, refl, ground arith)),
  λ (_, t). elim t [
    | inl (s', e, off) ↦ let same : s ≡ s' = cc in rw same (ground arith)
    | inr (e, f) ↦ absurd (ground arith)
  ],
)

-- Chain outcomes are unknown exactly if the crawler is off and the confirmer was opted out of, by its
-- variable or, where that is unset, in the configuration.
pub chain_confirmation_available-false_iff :
    (env : Env) (cfg : Config)
    → (chain_confirmation_available env cfg ≡ false) ↔ (
        (crawler_enabled env cfg ≡ false)
        × TurnedOff
            (variable env (codes "NIGHTGATE_CRAWLERLESS_CHAIN_CONFIRM"))
            cfg.crawlerless_chain_confirm)
unfolding chain_confirmation_available
chain_confirmation_available-false_iff env cfg =
    switch-TurnedOff (crawler_enabled env cfg)
      (variable env (codes "NIGHTGATE_CRAWLERLESS_CHAIN_CONFIRM")) cfg.crawlerless_chain_confirm

-- An entry that survives parsing as it is.
pub record Plain (e : Text × Text) : Type 0 where
  pub net_trimmed : trim e.0 ≡ e.0
  pub base_trimmed : trim e.1 ≡ e.1
  pub no_slash : drop_end is_slash e.1 ≡ e.1
  pub net_given : is_empty e.0 ≡ false
  pub base_given : is_empty e.1 ≡ false
  pub no_equals : Lacks b'=' e.0
  pub net_no_comma : Lacks b',' e.0
  pub base_no_comma : Lacks b',' e.1

-- `net=url`
abbrev pub print_entry : Text × Text → Text
print_entry e = e.0 ++ (b'=' ∷ e.1)

abbrev pub print_net_map : TextMap Text → Text
print_net_map m = join (b',' ∷ []) (map print_entry m)

cut-append : (b : ℕ) (s t : Text) → Lacks b s → cut b (s ++ (b ∷ t)) ≡ some (s, t)
unfolding cut
cut-append b [] t h = ground arith
cut-append b (c ∷ s) t (differs, h) = ground (arith, cut-append b s t h)

part_entry-print_entry : (e : Text × Text) → Plain e → part_entry (print_entry e) ≡ some e
unfolding part_entry net_entry
part_entry-print_entry e p =
    rw (cut-append b'=' e.0 e.1 p.no_equals, part_entry)
      (rw (p.net_trimmed, p.base_trimmed, p.no_slash, p.net_given, p.base_given, net_entry) refl)

abbrev first_of : Option Text → Option Text → Option Text
first_of none o = o
first_of (some a) o = some a

lookup-absent : (k : Text) (m : TextMap Text) → All (λ e. k ≢ e.0) m → lookup k m ≡ none
unfolding lookup
lookup-absent k [] h = refl
lookup-absent k (e ∷ m) (differs, h) = ground (arith, text_eq_iff e.0 k, lookup-absent k m h)

lookup-add_parts :
    (k : Text) (m out : TextMap Text)
    → All Plain m
    → Distinct (λ e. e.0) m
    → lookup k (add_parts (map print_entry m) out) ≡ first_of (lookup k m) (lookup k out)
unfolding add_parts lookup
lookup-add_parts k [] out h d = refl
lookup-add_parts k (e ∷ m) out (p, h) (apart, d) =
    rw (part_entry-print_entry e p, add_parts)
      (rw (lookup-add_parts k m (insert e.0 e.1 out) h d, lookup-insert e.0 k e.1 out)
        (elim (Bool-cases (text_eq e.0 k)) [
          | inr f ↦ rw f refl
          | inl f ↦
              let same : e.0 ≡ k = (text_eq_iff e.0 k).0 f in
              let gone : lookup k m ≡ none = rw same at (lookup-absent e.0 m apart) in
              rw (f, gone) refl
        ]))

Lacks-print_entry : (e : Text × Text) → Plain e → Lacks b',' (print_entry e)
Lacks-print_entry e p =
    All-append (λ c. c ≢ b',') e.0 (b'=' ∷ e.1) p.net_no_comma ((λ h. omega arith), p.base_no_comma)

Lacks-entries : (m : TextMap Text) → All Plain m → All (Lacks b',') (map print_entry m)
Lacks-entries [] h = tt
Lacks-entries (e ∷ m) (p, h) = (Lacks-print_entry e p, Lacks-entries m h)

first_of-none : (o : Option Text) → first_of o none ≡ o
first_of-none none = refl
first_of-none (some a) = refl

-- Parsing a printed map of plain entries with distinct networks gives a map with the same addresses.
pub lookup-parse_net_map :
    (m : TextMap Text) (k : Text)
    → All Plain m
    → Distinct (λ e. e.0) m
    → lookup k (parse_net_map (some (print_net_map m))) ≡ lookup k m
unfolding parse_net_map add_parts part_entry split_on cut join lookup
lookup-parse_net_map [] k h d = refl
lookup-parse_net_map (e ∷ m) k h d =
    rw
      (
        split_on-join b',' (print_entry e) (map print_entry m) (Lacks-entries (e ∷ m) h),
        lookup-add_parts k (e ∷ m) [] h d,
      )
      (first_of-none (lookup k (e ∷ m)))
