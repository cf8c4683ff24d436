-- ===== src/StateVerify/Tests.antt =====
-- State reads at a concrete reader, and the theorems at it.
use nightpass.Base.{
  ◌≡◌, ◌↔◌, refl, true, false, Option, none, some, Text, codes, norm, lower, strip_0x,
  is_lower_hex32, truthy,
}
use nightpass.ChainLane.{set_membership}
use nightpass.ChainVerify.{confirmed, unknown}
use nightpass.StateVerify.{
  RecordSelector, SelectorArgs, by_attester, document_diff, attestation, Reader, grant, revoke,
  mismatch, root_unknown, record_selector_args, verify_attest_state, attest_root_state,
  resolve_anchor_attester, verify_grant_state, verify_cross_root_state, verify_predicate_state,
  norm_given,
}
use nightpass.StateVerify.Selectors.{Named}
use nightpass.StateVerify.Verdicts.{Verified}
use nightpass.StateVerify.Attests.{verify_attest_state-confirmed_iff}

opened : Unit {0}
unfolding record_selector_args verify_attest_state attest_root_state resolve_anchor_attester
    verify_grant_state verify_cross_root_state verify_predicate_state norm lower strip_0x
    is_lower_hex32
opened = tt

abbrev id64 : Text
id64 = codes "0123456789abcdef0123456789abcdef0123456789abcdef0123456789abcdef"

-- Everything is attested under another root and verified; one grant is active.
abbrev env : Reader
env = record {
  read = λ _. some (record {
    verified = some true;
    attested = some true;
    content_root_ok = some false;
    schema_ok = none;
    attester_id = some id64;
  });
  available = λ _. true;
  reindex = λ _. some (λ _. some 1);
}

-- A reader whose provider is away.
abbrev away : Reader
away = record { read = λ _. none; available = λ _. true; reindex = λ _. none }

abbrev selector : RecordSelector
selector = record {
  contract_address = some (codes "0xAA");
  payload_hash = some (codes "BB");
  attester_id = some id64;
  document_id = none;
}

abbrev aa : Option Text
aa = some (codes "aa")

abbrev whom : Option Text
whom = some id64

runs :
    (record_selector_args selector ≡ some (by_attester (codes "aa") id64 (codes "bb")))
    × (record_selector_args (record selector { attester_id = none }) ≡ none)
    × (verify_attest_state env selector none ≡ confirmed)
    × (verify_attest_state away selector none ≡ unknown)
    × (attest_root_state env selector aa none ≡ mismatch)
    × (attest_root_state env selector none none ≡ root_unknown)
    × (resolve_anchor_attester env aa whom aa ≡ some id64)
    × (verify_grant_state env aa aa none aa grant ≡ confirmed)
    × (verify_grant_state env aa aa none aa revoke ≡ unknown)
    × (verify_cross_root_state env aa aa aa whom none document_diff 2 ≡ confirmed)
    × (verify_cross_root_state env aa aa aa aa none document_diff 2 ≡ unknown)
    × (verify_predicate_state env aa aa whom none set_membership none none ≡ unknown)
unfolding opened
runs = (refl, refl, refl, refl, refl, refl, refl, refl, refl, refl, refl, refl)

verify_attest_state-confirmed_iff_example : (verify_attest_state env selector none ≡ confirmed) ↔ (
    (sel : SelectorArgs) × Named selector sel
    × Verified (env.read (attestation sel (norm_given (truthy none)) none)))
verify_attest_state-confirmed_iff_example = verify_attest_state-confirmed_iff env selector none
