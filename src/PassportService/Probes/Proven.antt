-- ===== src/PassportService/Probes/Proven.antt =====
-- What a claim that is reported as verified stands on.
use nightpass.Base.{
  ok-inj, ◌≡◌, inl, inr, refl, subst, Bool, true, false, not, ◌&&◌, List, [], ◌∷◌, find, length,
  take, ltb, Option, some, is_some, Text, norm, text_or_empty, is_empty, truthy, or_else, Among,
  All-Among, Bool-cases, Option-cases, if◌then◌else◌, ok, require, >>=-inv,
}
use nightpass.Base.Members.{Among-take}
use nightpass.Base.Splits.{Env, trim}
use nightpass.PassportAnchor.Network.{Config, effective_network}
use nightpass.PassportService.Networks.{not_false, foreign_of, network_of, foreign_of-network}
use nightpass.PassportService.Verify.{
  AnchoredRow, VersionRow, passport_id_required, source_field_required, or_not_found, row_of,
}
use nightpass.PassportService.Probes.{
  Claim, ProofRow, Candidate, candidates, any_verified, Envelope, versions_of, has_all, reachable,
  unread, read_as, read_probe, probe, is_proof, probe_row, probe_claim,
}
use nightpass.PassportService.Probes.Candidates.{IsCandidate, candidates-IsCandidate}

any_verified-Among :
    (read : Candidate → Option Bool) (cs : List Candidate)
    → any_verified read cs ≡ true
    → (c : Candidate) × Among c cs × (read c ≡ some true)
unfolding any_verified
any_verified-Among read [] h = absurd (not_false h)
any_verified-Among read (c ∷ cs) h = elim (Option-cases (read c)) [
  | inl e ↦ absurd (not_false (rw (e, any_verified) at h))
  | inr (b, e) ↦ elim (Bool-cases b) [
    | inl yes_it_is ↦ (c, inl refl, rw yes_it_is at e)
    | inr no_it_is ↦
        let (d, member, k) = any_verified-Among read cs (rw (e, no_it_is, any_verified) at h) in
        (d, inr member, k)
  ]
]

module _ (env : Env) (cfg : Config) (has_param : Text → Bool) (field_key : Text → Text)
    (read_claim : Candidate → Text → Claim → Option Text → Option Bool) where
  -- A candidate of the passport is recorded with the claim, as it was read on the passport's own network.
  abbrev pub IsProven : Text → Claim → List VersionRow → List ProofRow → Envelope → Type 0
  IsProven field claim versions proofs e =
      (c : Candidate) × (network : Option Text) × IsCandidate e.row (versions_of e.row versions)
        (find (is_proof env cfg has_param field_key read_claim e.row field claim) proofs) c
      × (read_claim c (field_key field) claim network ≡ some true)
      × (or_else network (effective_network env cfg) ≡ network_of env cfg e.row.anchor_network)
      × (e.checked_network ≡ some (network_of env cfg e.row.anchor_network))

  abbrev Stands : Text → Claim → List VersionRow → List ProofRow → Envelope → Type 0
  Stands field claim versions proofs e = e.verified ≡ true → IsProven field claim versions proofs e

  probe_row-Stands :
      (row : AnchoredRow) (field : Text) (claim : Claim) (is_supported : Bool)
      → (versions : List VersionRow) (proofs : List ProofRow)
      → Stands field claim versions proofs (
          probe_row env cfg has_param field_key read_claim row field claim is_supported versions
            proofs)
  unfolding probe_row probe
  probe_row-Stands row field claim is_supported versions proofs = by_test (
      ltb 0 (length probes)
      && not (is_empty (norm row.contract_address))
      && is_supported
      && reachable env cfg has_param row)
    where
      proof : Option ProofRow
      proof = find (is_proof env cfg has_param field_key read_claim row field claim) proofs

      probes : List Candidate
      probes = take 5 (candidates row (versions_of row versions) proof)

      by_test :
          (b : Bool)
          → Stands field claim versions proofs (
              if b
              then read_as env cfg has_param row (
                  any_verified
                    (read_probe env cfg has_param field_key read_claim row field claim)
                    probes)
              else unread env cfg has_param row)
      by_test false h = absurd (not_false h)
      by_test true h =
          let (c, member, said) =
            any_verified-Among (read_probe env cfg has_param field_key read_claim row field claim)
              probes h in
          let fits =
            All-Among (IsCandidate row (versions_of row versions) proof)
              (candidates row (versions_of row versions) proof) c
              (candidates-IsCandidate row (versions_of row versions) proof)
              (Among-take c 5 (candidates row (versions_of row versions) proof) member) in
          let own = foreign_of-network env cfg row.anchor_network in
          (c, foreign_of env cfg row.anchor_network, fits, said, own, rw own refl)

  -- A claim is reported as verified only if, on the passport's own network or the server's if it has none,
  -- the claim is recorded for a candidate. That has the hash that is stamped on the newest proof of the
  -- claim, or else a hash of the passport or of one of its versions, the attester that is stamped or that
  -- the passport or a version with the hash names, and the contract of the passport or of a version.
  pub probe_claim-verified :
      (asked field : Option Text) (claim : Claim) (needed : Option Text) (table : List AnchoredRow)
      → (versions : List VersionRow) (proofs : List ProofRow) (e : Envelope)
      → probe_claim env cfg has_param field_key read_claim asked field claim needed table versions
          proofs
        ≡ ok e
      → e.verified ≡ true
      → IsProven (text_or_empty field) claim versions proofs e
  unfolding probe_claim
  probe_claim-verified asked field claim needed table versions proofs e h verified =
      let (_, _, h₁) =
        >>=-inv (require (not (is_empty (trim (text_or_empty asked)))) passport_id_required) _ h in
      let (_, _, h₂) = >>=-inv (require (is_some (truthy field)) source_field_required) _ h₁ in
      let (row, _, h₃) = >>=-inv (or_not_found (row_of (trim (text_or_empty asked)) table)) _ h₂ in
      subst (λ e. Stands (text_or_empty field) claim versions proofs e) (ok-inj h₃)
        (probe_row-Stands row (text_or_empty field) claim (has_all env cfg has_param needed)
          versions proofs)
        verified
