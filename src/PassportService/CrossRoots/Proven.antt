-- ===== src/PassportService/CrossRoots/Proven.antt =====
-- What a relation of two anchors that is reported as verified stands on.
use nightpass.Base.{
  ok-inj, truthy-some, ◌≡◌, inl, inr, refl, subst, Bool, true, false, not, ◌&&◌, List, Option, none,
  some, Text, norm, text_or_empty, is_empty, is_lower_hex32, or_else, Bool-cases, if◌then◌else◌, ok,
  require, require-eq-ok, and-eq-true_iff, >>=-inv,
}
use nightpass.Base.Splits.{Env, trim}
use nightpass.PassportAnchor.Network.{Config, effective_network}
use nightpass.PassportService.Networks.{
  not_false, some-inj, foreign_of, network_of, foreign_of-network,
}
use nightpass.PassportService.Verify.{
  AnchoredRow, VersionRow, passport_id_required, bad_hashes, or_not_found, row_of,
}
use nightpass.PassportService.Probes.{Envelope, CrossRoot, RecordPair, versions_of, unread, read_as}
use nightpass.PassportService.Probes.Candidates.{Recorded, attester_by_hash-Recorded}
use nightpass.PassportService.CrossRoots.{
  pair_of, is_verified, pair_in, supported, checked_pair, check_pair, probe_cross_root,
}

-- The pair is of the two hashes, in the contract, with an attester for each.
abbrev PairOf : Text → Text → Text → Option Text → Option Text → RecordPair → Type 0
PairOf contract hash_a hash_b a b p =
    (p.contract_address ≡ contract)
    × (p.payload_hash_a ≡ hash_a)
    × (p.payload_hash_b ≡ hash_b)
    × (a ≡ some p.attester_a)
    × (b ≡ some p.attester_b)

pair_of-PairOf :
    (contract hash_a hash_b : Text) (a b : Option Text) (p : RecordPair)
    → pair_of contract hash_a hash_b a b ≡ some p
    → PairOf contract hash_a hash_b a b p
pair_of-PairOf contract hash_a hash_b none b p h = absurd (cc)
pair_of-PairOf contract hash_a hash_b (some a) none p h = absurd (cc)
pair_of-PairOf contract hash_a hash_b (some a) (some b) p h =
    elim (Bool-cases (is_empty contract)) [
      | inl e ↦ absurd (cc (rw e at h))
      | inr e ↦
          subst (λ q. PairOf contract hash_a hash_b (some a) (some b) q) (some-inj (rw e at h))
            (refl, refl, refl, refl, refl)
    ]

module _ (env : Env) (cfg : Config) (has_param : Text → Bool)
    (read_pair : RecordPair → CrossRoot → Option Text → Option Bool) where
  -- The relation is recorded for the records of the two hashes, each with the attester that the passport or
  -- a version with the hash names, in the passport's contract, as it was read on the passport's own network.
  abbrev pub IsProven : Text → Text → CrossRoot → List VersionRow → Envelope → Type 0
  IsProven hash_a hash_b kind versions e =
      (p : RecordPair) × (network : Option Text) × (p.contract_address
        ≡ norm e.row.contract_address)
      × (p.payload_hash_a ≡ hash_a)
      × (p.payload_hash_b ≡ hash_b)
      × Recorded e.row (versions_of e.row versions) hash_a p.attester_a
      × Recorded e.row (versions_of e.row versions) hash_b p.attester_b
      × (read_pair p kind network ≡ some true)
      × (or_else network (effective_network env cfg) ≡ network_of env cfg e.row.anchor_network)
      × (e.checked_network ≡ some (network_of env cfg e.row.anchor_network))

  abbrev Stands : Text → Text → CrossRoot → List VersionRow → Envelope → Type 0
  Stands hash_a hash_b kind versions e = e.verified ≡ true → IsProven hash_a hash_b kind versions e

  is_verified-some : (o : Option Bool) → is_verified o ≡ true → o ≡ some true
  is_verified-some none h = absurd (not_false h)
  is_verified-some (some b) h = rw h refl

  checked_pair-Stands :
      (row : AnchoredRow) (versions : List VersionRow) (hash_a hash_b : Text) (kind : CrossRoot)
      → (o : Option RecordPair) → pair_in env cfg has_param read_pair row versions hash_a hash_b ≡ o
      → Stands hash_a hash_b kind versions (checked_pair env cfg has_param read_pair o kind row)
  checked_pair-Stands row versions hash_a hash_b kind none e h = absurd (not_false h)
  checked_pair-Stands row versions hash_a hash_b kind (some p) e h =
      by_test (supported env cfg has_param read_pair kind row) h
    where
      by_test :
          (b : Bool)
          → Stands hash_a hash_b kind versions (
              if b
              then read_as env cfg has_param row
                  (is_verified (read_pair p kind (foreign_of env cfg row.anchor_network)))
              else unread env cfg has_param row)
      by_test false k = absurd (not_false k)
      by_test true k =
          let (placed, first, second, a, b) = pair_of-PairOf _ hash_a hash_b _ _ p e in
          let own = foreign_of-network env cfg row.anchor_network in
          let vs = versions_of row versions in
          (
            p,
            foreign_of env cfg row.anchor_network,
            placed,
            first,
            second,
            attester_by_hash-Recorded row vs hash_a p.attester_a (truthy-some _ _ a),
            attester_by_hash-Recorded row vs hash_b p.attester_b (truthy-some _ _ b),
            is_verified-some _ k,
            own,
            rw own refl,
          )

  -- A relation of two anchors is reported as verified only if the two hashes are 32 bytes of hex and the
  -- relation is recorded for them.
  pub probe_cross_root-verified :
      (asked hash_a hash_b : Option Text) (kind : CrossRoot) (table : List AnchoredRow)
      → (versions : List VersionRow) (e : Envelope)
      → probe_cross_root env cfg has_param read_pair asked hash_a hash_b kind table versions ≡ ok e
      → e.verified ≡ true
      → (is_lower_hex32 (norm hash_a) ≡ true)
        × (is_lower_hex32 (norm hash_b) ≡ true)
        × IsProven (norm hash_a) (norm hash_b) kind versions e
  unfolding probe_cross_root check_pair
  probe_cross_root-verified asked hash_a hash_b kind table versions e h verified =
      let (_, _, h₁) =
        >>=-inv (require (not (is_empty (trim (text_or_empty asked)))) passport_id_required) _ h in
      let (_, hex, h₂) =
        >>=-inv (require (is_lower_hex32 (norm hash_a) && is_lower_hex32 (norm hash_b)) bad_hashes)
          _ h₁ in
      let (row, _, h₃) = >>=-inv (or_not_found (row_of (trim (text_or_empty asked)) table)) _ h₂ in
      let (first, second) = (and-eq-true_iff _ _).0 (require-eq-ok _ bad_hashes hex) in
      (
        first,
        second,
        subst (λ e. Stands (norm hash_a) (norm hash_b) kind versions e) (ok-inj h₃)
            (checked_pair-Stands row versions (norm hash_a) (norm hash_b) kind _ refl) verified,
      )
