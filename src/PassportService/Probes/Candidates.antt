-- ===== src/PassportService/Probes/Candidates.antt =====
-- Which records are probed for a claim.
use nightpass.Base.{
  ◌≡◌, ◌⊎◌, inl, inr, refl, ap, arith, Bool, true, false, ◌||◌, List, [], ◌∷◌, ◌++◌, Option, none,
  some, Text, norm, text_eq, text_eq_iff, text_or_empty, is_empty, truthy, or_else, Among, All,
  Bool-cases, if◌then◌else◌,
}
use nightpass.Base.Members.{All-snoc}
use nightpass.Base.Maps.{TextMap, lookup, lookup-insert}
use nightpass.PassportService.Networks.{some-inj}
use nightpass.PassportService.Verify.{AnchoredRow, VersionRow, own_attester}
use nightpass.PassportService.Probes.{
  ProofRow, Candidate, name_by, add_attester, add_attesters, attester_by_hash, is_seen, add_new,
  pushed, push, push_versions, stamped_hash, stamped_attester, candidates,
}

-- The row or a version with the hash names the attester.
abbrev pub Recorded : AnchoredRow → List VersionRow → Text → Text → Type 0
Recorded row versions h a =
    ((norm row.payload_hash ≡ h) × (own_attester row.attester_id ≡ some a))
    ⊎ ((v : VersionRow) × Among v versions
        × (norm v.payload_hash ≡ h)
        × (own_attester v.attester_id ≡ some a))

lookup-name_by :
    (o : Option Text) (hash h a : Text) (m : TextMap Text)
    → lookup h (name_by o hash m) ≡ some a
    → ((hash ≡ h) × (o ≡ some a)) ⊎ (lookup h m ≡ some a)
lookup-name_by none hash h a m k = inr k
lookup-name_by (some b) hash h a m k =
    let stored = rw (lookup-insert hash h b m) at k in
    elim (Bool-cases (text_eq hash h)) [
      | inl same ↦
          let value : b ≡ a = some-inj (rw same at stored) in
          inl ((text_eq_iff hash h).0 same, ap (λ x. some x) value)
      | inr differs ↦ inr (rw differs at stored)
    ]

lookup-add_attesters :
    (vs : List VersionRow) (h a : Text) (m : TextMap Text)
    → lookup h (add_attesters vs m) ≡ some a
    → (lookup h m ≡ some a)
      ⊎ ((v : VersionRow) × Among v vs
          × (norm v.payload_hash ≡ h)
          × (own_attester v.attester_id ≡ some a))
unfolding add_attesters
lookup-add_attesters [] h a m k = inl k
lookup-add_attesters (v ∷ vs) h a m k =
    elim (lookup-add_attesters vs h a (add_attester v.attester_id v.payload_hash m) k) [
      | inr (w, member, hashed, named) ↦ inr (w, inr member, hashed, named)
      | inl before ↦
          elim (lookup-name_by (own_attester v.attester_id) (norm v.payload_hash) h a m before) [
            | inl (hashed, named) ↦ inr (v, inl refl, hashed, named)
            | inr old ↦ inl old
          ]
    ]

pub attester_by_hash-Recorded :
    (row : AnchoredRow) (versions : List VersionRow) (h a : Text)
    → lookup h (attester_by_hash row versions) ≡ some a
    → Recorded row versions h a
unfolding attester_by_hash lookup
attester_by_hash-Recorded row versions h a k =
    elim (lookup-add_attesters versions h a (add_attester row.attester_id row.payload_hash []) k) [
      | inr of_version ↦ inr of_version
      | inl of_row ↦
          elim (lookup-name_by (own_attester row.attester_id) (norm row.payload_hash) h a []
            of_row) [ inl own ↦ inl own | inr nothing ↦ ground arith ]
    ]

-- The candidate has the hash that is stamped on the claim's proof, or else one of the passport's; the
-- attester that is stamped or the one that is recorded for its hash; and a contract of the passport.
abbrev pub IsCandidate : AnchoredRow → List VersionRow → Option ProofRow → Candidate → Type 0
IsCandidate row versions proof c =
    ((stamped_hash proof ≡ some c.payload_hash)
      ⊎ ((stamped_hash proof ≡ none)
          × ((norm row.payload_hash ≡ c.payload_hash)
              ⊎ ((v : VersionRow) × Among v versions × (norm v.payload_hash ≡ c.payload_hash)))))
    × ((stamped_attester proof ≡ some c.attester_id)
        ⊎ Recorded row versions c.payload_hash c.attester_id)
    × ((norm row.contract_address ≡ c.contract_address)
        ⊎ ((v : VersionRow) × Among v versions × (norm v.contract_address ≡ c.contract_address)))

module _ (P : Candidate → Type 0) where
  add_new-All :
      (c : Candidate) (cs : List Candidate)
      → All P cs
      → (is_empty c.attester_id ≡ false → P c)
      → All P (add_new c cs)
  add_new-All c cs h p =
      by_test (is_empty c.payload_hash) (is_empty c.contract_address) (is_empty c.attester_id)
        (is_seen c cs) p
    where
      by_test :
          (h_empty c_empty a_empty seen : Bool)
          → (a_empty ≡ false → P c)
          → All P (if h_empty || c_empty || a_empty || seen then cs else cs ++ (c ∷ []))
      by_test true c_empty a_empty seen q = h
      by_test false true a_empty seen q = h
      by_test false false true seen q = h
      by_test false false false true q = h
      by_test false false false false q = All-snoc P c cs h (q refl)

module _ (row : AnchoredRow) (versions : List VersionRow) (proof : Option ProofRow) where
  abbrev HashFits : Text → Type 0
  HashFits h =
      (stamped_hash proof ≡ some h)
      ⊎ ((stamped_hash proof ≡ none)
          × ((norm row.payload_hash ≡ h)
              ⊎ ((v : VersionRow) × Among v versions × (norm v.payload_hash ≡ h))))

  abbrev ContractFits : Text → Type 0
  ContractFits c =
      (norm row.contract_address ≡ c)
      ⊎ ((v : VersionRow) × Among v versions × (norm v.contract_address ≡ c))

  pushed-IsCandidate :
      (h c : Text)
      → HashFits h
      → ContractFits c
      → is_empty (pushed (attester_by_hash row versions) h c (stamped_attester proof)).attester_id
        ≡ false
      → IsCandidate row versions proof
          (pushed (attester_by_hash row versions) h c (stamped_attester proof))
  unfolding pushed
  pushed-IsCandidate h c hashed placed named = (
    hashed,
    of_attester (stamped_attester proof) refl (lookup h (attester_by_hash row versions)) refl named,
    placed,
  )
    where
      of_attester :
          (o : Option Text)
          → stamped_attester proof ≡ o
          → (p : Option Text) → lookup h (attester_by_hash row versions) ≡ p
          → is_empty (or_else (truthy o) (text_or_empty p)) ≡ false
          → (stamped_attester proof ≡ some (or_else (truthy o) (text_or_empty p)))
            ⊎ Recorded row versions h (or_else (truthy o) (text_or_empty p))
      of_attester (some (b ∷ t)) e p q k = inl e
      of_attester (some []) e none q k = absurd (cc)
      of_attester (some []) e (some a) q k = inr (attester_by_hash-Recorded row versions h a q)
      of_attester none e none q k = absurd (cc)
      of_attester none e (some a) q k = inr (attester_by_hash-Recorded row versions h a q)

  push_versions-IsCandidate :
      (vs : List VersionRow) (cs : List Candidate)
      → ((v : VersionRow) → Among v vs → Among v versions)
      → All (IsCandidate row versions proof) cs
      → All (IsCandidate row versions proof) (
          push_versions
            (attester_by_hash row versions)
            (stamped_hash proof)
            (norm row.contract_address)
            (stamped_attester proof)
            vs
            cs)
  unfolding push_versions push
  push_versions-IsCandidate [] cs among all = all
  push_versions-IsCandidate (v ∷ vs) cs among all =
      push_versions-IsCandidate vs _ (λ w member. among w (inr member))
        (add_new-All (IsCandidate row versions proof) _ cs all (
          pushed-IsCandidate _ _ (hash_of (stamped_hash proof) refl)
            (placed (norm v.contract_address) refl)))
    where
      hash_of :
          (o : Option Text) → stamped_hash proof ≡ o → HashFits (or_else o (norm v.payload_hash))
      hash_of (some h) e = inl e
      hash_of none e = inr (e, inr (v, among v (inl refl), refl))

      placed :
          (c : Text)
          → norm v.contract_address ≡ c
          → ContractFits (or_else (truthy (some c)) (norm row.contract_address))
      placed [] e = inl refl
      placed (x ∷ c) e = inr (v, among v (inl refl), e)

  -- Every record that is probed is a candidate.
  pub candidates-IsCandidate : All (IsCandidate row versions proof) (candidates row versions proof)
  unfolding candidates push
  candidates-IsCandidate =
      push_versions-IsCandidate versions _ (λ v member. member)
        (add_new-All (IsCandidate row versions proof) _ [] tt
          (pushed-IsCandidate _ _ (hash_of (stamped_hash proof) refl) (inl refl)))
    where
      hash_of :
          (o : Option Text) → stamped_hash proof ≡ o → HashFits (or_else o (norm row.payload_hash))
      hash_of (some h) e = inl e
      hash_of none e = inr (e, inl refl)
