-- ===== src/StateVerify/Attests.antt =====
-- Which record an attest is confirmed by.
use nightpass.Base.{◌≡◌, ◌↔◌, refl, Option, none, some, Text, truthy}
use nightpass.ChainVerify.{confirmed}
use nightpass.StateVerify.{
  RecordSelector, SelectorArgs, by_attester, by_document, record_selector_args, attestation, Reader,
  norm_given, verify_attest_state,
}
use nightpass.StateVerify.Selectors.{Named, record_selector_args-Named}
use nightpass.StateVerify.Verdicts.{Verified, attest_confirmed_iff}

Named-record_selector_args :
    (o : RecordSelector) (sel : SelectorArgs) → Named o sel → record_selector_args o ≡ some sel
unfolding record_selector_args
Named-record_selector_args o (by_attester c a p) (e, f, g, h, i, j) =
    rw (e, f, g) (rw (rw e at h, rw g at i, rw f at j) refl)
Named-record_selector_args o (by_document c d p) (e, f, g, h, i, j, k) =
    rw (e, f, g) (rw (rw e at h, rw g at i, rw f at j, k) refl)

module _ (env : Reader) where
  -- An attest is confirmed exactly if one state read answers that it is verified: of the normalised
  -- contract and payload, neither of them empty, under the normalised attester id if that is 32 bytes of hex, or else
  -- under the normalised document id, which then is; with the normalised root if one is given.
  pub verify_attest_state-confirmed_iff :
      (o : RecordSelector) (root : Option Text)
      → (verify_attest_state env o root ≡ confirmed) ↔ (
          (sel : SelectorArgs) × Named o sel
          × Verified (env.read (attestation sel (norm_given (truthy root)) none)))
  verify_attest_state-confirmed_iff o root =
      let (to, from) = attest_confirmed_iff env o root in
      (
        (λ h. let (sel, e, v) = to h in (sel, record_selector_args-Named o sel e, v)),
        λ (sel, named, v). from (sel, Named-record_selector_args o sel named, v),
      )
