-- ===== src/ProofPlan/Keys.antt =====
-- The join keys of claims tell different claims apart.
use nightpass.Base.{
  ℕ, ◌≤◌, ◌≡◌, refl, ap, ◌∙◌, sym, arith, true, false, and-eq-true_iff, [], ◌∷◌, ◌++◌, Text, lower,
  is_lower_hex, is_digit, is_lower_hex32, is_lower_hex32-lower, lower_idem, Lacks, Lacks-all,
  split_unique, Ensures, Ensures-bind, Ensures-elim, String,
}
use nightpass.Base.Decimal.{is_decimal, value}
use nightpass.ProofPlan.{
  ProofClaim, predicate, membership, RawClaim, raw_predicate, raw_membership, Op, less_or_equal,
  greater_or_equal, op_text, claim_key, normalise, max_threshold, check_claim_hex32,
  check_threshold, check_op,
}

-- A claim as the plan carries it: lower-case hexadecimal keys and roots, and a decimal threshold of
-- at most 2^63 - 1.
abbrev IsLowerHex : Text → Type 0
IsLowerHex s = (is_lower_hex32 s ≡ true) × (lower s ≡ s)

abbrev pub IsNormal : ProofClaim → Type 0
IsNormal (predicate field threshold op) =
    IsLowerHex field × (is_decimal threshold ≡ true) × (value threshold ≤ max_threshold)
IsNormal (membership field root) = IsLowerHex field × IsLowerHex root

Lacks-bar_of_hex : (s : Text) → is_lower_hex32 s ≡ true → Lacks b'|' s
unfolding is_lower_hex32
Lacks-bar_of_hex s h = Lacks-all b'|' is_lower_hex s refl ((and-eq-true_iff _ _).0 h).1

Lacks-bar_of_decimal : (s : Text) → is_decimal s ≡ true → Lacks b'|' s
Lacks-bar_of_decimal s h = Lacks-all b'|' is_digit s refl ((and-eq-true_iff _ _).0 h).1

op_text-injective : (o p : Op) → op_text o ≡ op_text p → o ≡ p
op_text-injective less_or_equal less_or_equal h = refl
op_text-injective less_or_equal greater_or_equal h = ground arith
op_text-injective greater_or_equal less_or_equal h = ground arith
op_text-injective greater_or_equal greater_or_equal h = refl

not-is_decimal-m : is_decimal (b'm' ∷ []) ≡ false
not-is_decimal-m = refl

Lacks-bar-lower : (s : Text) → IsLowerHex s → Lacks b'|' (lower s)
Lacks-bar-lower s (hex, same) = rw same (Lacks-bar_of_hex s hex)

eq_of_lower : (s t : Text) → IsLowerHex s → IsLowerHex t → lower s ≡ lower t → s ≡ t
eq_of_lower s t (_, p) (_, q) e = sym p ∙ e ∙ q

-- The part in front of the second bar tells the two kinds apart.
kinds_differ :
    (f g t r o : Text)
    → IsLowerHex f
    → IsLowerHex g
    → is_decimal t ≡ true
    → lower f ++ (b'|' ∷ (t ++ (b'|' ∷ o))) ≡ lower g ++ (b'|' ∷ (b'm' ∷ b'|' ∷ r))
    → ⊥
kinds_differ f g t r o hf hg ht e =
    let (_, tails) =
      split_unique b'|' (lower f) (lower g) _ _ (Lacks-bar-lower f hf) (Lacks-bar-lower g hg) e in
    let (mid, _) =
      split_unique b'|' t (b'm' ∷ []) o r (Lacks-bar_of_decimal t ht) (omega arith, tt) tails in
    cc (ap is_decimal mid, not-is_decimal-m)

List_tail : {a b c d : ℕ} {s t : Text} → a ∷ b ∷ s ≡ c ∷ d ∷ t → s ≡ t
List_tail e = cc

-- Two claims of a plan with the same key are the same claim.
pub claim_key-injective :
    (c d : ProofClaim) → IsNormal c → IsNormal d → claim_key c ≡ claim_key d → c ≡ d
unfolding claim_key
claim_key-injective (predicate f t o) (predicate g u p) (hf, ht, _) (hg, hu, _) e =
    let (fields, tails) =
      split_unique b'|' (lower f) (lower g) _ _ (Lacks-bar-lower f hf) (Lacks-bar-lower g hg) e in
    let (thresholds, ops) =
      split_unique b'|' t u _ _ (Lacks-bar_of_decimal t ht) (Lacks-bar_of_decimal u hu) tails in
    cc (eq_of_lower f g hf hg fields, thresholds, op_text-injective o p ops)
claim_key-injective (predicate f t o) (membership g r) (hf, ht, _) (hg, hr) e =
    absurd (kinds_differ f g t (lower r) (op_text o) hf hg ht e)
claim_key-injective (membership f r) (predicate g u p) (hf, hr) (hg, hu, _) e =
    absurd (kinds_differ g f u (lower r) (op_text p) hg hf hu (sym e))
claim_key-injective (membership f r) (membership g s) (hf, hr) (hg, hs) e =
    let (fields, tails) =
      split_unique b'|' (lower f) (lower g) _ _ (Lacks-bar-lower f hf) (Lacks-bar-lower g hg) e in
    cc (eq_of_lower f g hf hg fields, eq_of_lower r s hr hs (List_tail tails))

check_claim_hex32-Ensures :
    (s : Text) (i : ℕ) (label : String)
    → Ensures (λ t. IsLowerHex (lower t)) (check_claim_hex32 s i label)
unfolding check_claim_hex32
check_claim_hex32-Ensures s i label = ground (arith, is_lower_hex32-lower s, lower_idem s)

check_threshold-Ensures :
    (s : Text) (i : ℕ)
    → Ensures (λ t. (is_decimal t ≡ true) × (value t ≤ max_threshold)) (check_threshold s i)
unfolding check_threshold
check_threshold-Ensures s i = ground arith

pub normalise-IsNormal : (i : ℕ) (raw : RawClaim) → Ensures IsNormal (normalise i raw)
unfolding normalise
normalise-IsNormal i (raw_predicate field threshold op) =
    Ensures-bind _ (check_claim_hex32 field i "fieldKey") _ λ f ef.
      Ensures-bind _ (check_threshold threshold i) _ λ t et. Ensures-bind _ (check_op op i) _ λ o _.
        let (digits, bound) =
          Ensures-elim (λ t. (is_decimal t ≡ true) × (value t ≤ max_threshold))
            (check_threshold-Ensures threshold i) et in
        (
          Ensures-elim (λ t. IsLowerHex (lower t)) (check_claim_hex32-Ensures field i "fieldKey")
              ef,
          digits,
          bound,
        )
normalise-IsNormal i (raw_membership field root) =
    Ensures-bind _ (check_claim_hex32 field i "fieldKey") _ λ f ef.
      Ensures-bind _ (check_claim_hex32 root i "setRoot") _ λ r er. (
        Ensures-elim (λ t. IsLowerHex (lower t)) (check_claim_hex32-Ensures field i "fieldKey") ef,
        Ensures-elim (λ t. IsLowerHex (lower t)) (check_claim_hex32-Ensures root i "setRoot") er,
      )
