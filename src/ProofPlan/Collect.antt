-- ===== src/ProofPlan/Collect.antt =====
-- What the loop over the claims keeps and drops.
use nightpass.Base.{
  ℕ, ◌+◌, ◌≡◌, ◌≢◌, refl, arith, Bool, true, false, ◌||◌, List, [], ◌∷◌, Text, text_eq,
  text_eq_refl, text_eq_iff, any, All, Distinct, length, if◌then◌else◌, Bool-cases, inl, inr, ok,
  Ensures, Ensures-bind, Ensures-elim,
}
use nightpass.ProofPlan.{ProofClaim, RawClaim, claim_key, normalise, has, place, collect}
use nightpass.ProofPlan.Keys.{IsNormal, normalise-IsNormal}

-- Whether a claim of the list has the key.
abbrev pub has_claim : Text → List ProofClaim → Bool
has_claim key = any (λ c. text_eq key (claim_key c))

-- The claim that was handed over stands in the list, in its normal form.
abbrev pub IsCovered : List Text → List ProofClaim → RawClaim → Type 0
IsCovered seen kept raw =
    (i : ℕ) × (c : ProofClaim) × (normalise i raw ≡ ok c)
    × ((has (claim_key c) seen || has_claim (claim_key c) kept) ≡ true)

pub record IsCollected (seen : List Text) (raws : List RawClaim)
    (parts : List ProofClaim × List ProofClaim) : Type 0 where
  pub normal : All IsNormal parts.0
  pub fresh : All (λ c. has (claim_key c) seen ≡ false) parts.0
  pub distinct : Distinct claim_key parts.0
  pub repeated :
      All (λ d. (has (claim_key d) seen || has_claim (claim_key d) parts.0) ≡ true) parts.1
  pub total : length parts.0 + length parts.1 ≡ length raws
  pub covered : All (IsCovered seen parts.0) raws

module _ {ℓ κ} {A : Type ℓ} {P Q : A → Type κ} (f : (a : A) → P a → Q a) where
  pub All-map : (xs : List A) → All P xs → All Q xs
  All-map [] h = tt
  All-map (x ∷ xs) (p, h) = (f x p, All-map xs h)

module _ (seen : List Text) (claim : ProofClaim) where
  fresh_of_longer :
      (d : ProofClaim)
      → has (claim_key d) (claim_key claim ∷ seen) ≡ false
      → has (claim_key d) seen ≡ false
  fresh_of_longer d h = ground arith

  differs_of_fresh :
      (d : ProofClaim)
      → has (claim_key d) (claim_key claim ∷ seen) ≡ false
      → claim_key claim ≢ claim_key d
  differs_of_fresh d h e = ground (arith, text_eq_iff (claim_key d) (claim_key claim))

  -- What was seen before or is this claim is seen, or kept, after it.
  found_after :
      (d : ProofClaim) (kept : List ProofClaim)
      → (has (claim_key d) (claim_key claim ∷ seen) || has_claim (claim_key d) kept) ≡ true
      → (has (claim_key d) seen || has_claim (claim_key d) (claim ∷ kept)) ≡ true
  found_after d kept h = ground arith

  place-IsCollected_old :
      (raws : List RawClaim) (raw : RawClaim) (i : ℕ) (parts : List ProofClaim × List ProofClaim)
      → normalise i raw ≡ ok claim
      → has (claim_key claim) seen ≡ true
      → IsCollected seen raws parts
      → IsCollected seen (raw ∷ raws) (place true claim parts)
  place-IsCollected_old raws raw i (kept, dropped) e old h = record {
    normal = h.normal;
    fresh = h.fresh;
    distinct = h.distinct;
    repeated = (ground arith, h.repeated);
    total = omega (arith, h.total);
    covered = ((i, claim, e, ground arith), h.covered);
  }

  place-IsCollected_new :
      (raws : List RawClaim) (raw : RawClaim) (i : ℕ) (parts : List ProofClaim × List ProofClaim)
      → normalise i raw ≡ ok claim
      → IsNormal claim
      → has (claim_key claim) seen ≡ false
      → IsCollected (claim_key claim ∷ seen) raws parts
      → IsCollected seen (raw ∷ raws) (place false claim parts)
  place-IsCollected_new raws raw i (kept, dropped) e normal new h = record {
    normal = (normal, h.normal);
    fresh = (new, All-map fresh_of_longer kept h.fresh);
    distinct = (All-map differs_of_fresh kept h.fresh, h.distinct);
    repeated = All-map (λ d. found_after d kept) dropped h.repeated;
    total = omega (arith, h.total);
    covered = (
      (i, claim, e, ground (arith, text_eq_refl (claim_key claim))),
      All-map (λ r (j, d, n, found). (j, d, n, found_after d kept found)) raws h.covered,
    );
  }

pub collect-IsCollected :
    (i : ℕ) (seen : List Text) (raws : List RawClaim)
    → Ensures (IsCollected seen raws) (collect i seen raws)
unfolding collect
collect-IsCollected i seen [] = record {
  normal = tt;
  fresh = tt;
  distinct = tt;
  repeated = tt;
  total = refl;
  covered = tt;
}
collect-IsCollected i seen (raw ∷ raws) = Ensures-bind _ (normalise i raw) _ λ claim e.
    Ensures-bind _
      (collect (i + 1) (if has (claim_key claim) seen then seen else claim_key claim ∷ seen) raws) _
      λ parts f. elim (Bool-cases (has (claim_key claim) seen)) [
        | inl old ↦ rw old (
            place-IsCollected_old seen claim raws raw i parts e old (
              Ensures-elim (IsCollected seen raws) (collect-IsCollected (i + 1) seen raws)
                (rw old at f)))
        | inr new ↦ rw new (
            place-IsCollected_new seen claim raws raw i parts e
              (Ensures-elim IsNormal (normalise-IsNormal i raw) e) new
              (Ensures-elim (IsCollected (claim_key claim ∷ seen) raws)
                (collect-IsCollected (i + 1) (claim_key claim ∷ seen) raws) (rw new at f)))
      ]
