-- ===== src/RemoteLane/Landing.antt =====
-- What a sponsored transaction that is returned has gone through.
use nightpass.Base.{
  ℕ, ◌≤◌, ◌<◌, ◌≡◌, ◌≢◌, refl, ◌∙◌, arith, Bool, true, false, List, Option, none, some, Text,
  truthy, text_or_empty, Result, ok, err, >>=-inv,
}
use nightpass.Base.Retry.{retry-Ended, Retried}
use nightpass.ChainLane.{LaneTx}
use nightpass.RemoteLane.Hashes.{resolve_tx_hash}
use nightpass.RemoteLane.Sponsoring.{
  LaneError, is_rebuildable, PreparedCall, Batch, SponsorJob, Landed, Sponsor, check_landed,
  check_hash, batch_for, attempt_at, labelled, build_and_sponsor,
}

module _ (net : Sponsor) (label contract : Text)
    (prepare : ℕ → Result LaneError (List PreparedCall)) (batch : Batch) where
  -- The attempt prepared the calls, built them for the contract, had them sponsored, and saw the
  -- transaction indexed and not failed; the result names it by its resolved hash.
  pub record Applied (n : ℕ) (tx : LaneTx) : Type 0 where
    pub calls : List PreparedCall
    pub built : Text
    pub job : SponsorJob
    pub tx_id : Text
    pub landed : Landed
    pub prepared : prepare n ≡ ok calls
    pub build_ok : net.build n contract calls (batch_for net label contract calls batch) ≡ ok built
    pub sponsored : net.sponsor_unbound n built ≡ ok job
    pub identified : truthy job.tx_hash ≡ some tx_id
    pub indexed : net.wait_landed n tx_id ≡ ok (some landed)
    pub not_failed : landed.applied ≢ some false
    pub hash : tx.tx_hash ≡ resolve_tx_hash (some tx_id) (net.by_identifier n tx_id) none
    pub job_id : tx.job_id ≡ text_or_empty job.job_id

  check_hash-ok :
      (job : SponsorJob) (id : Text)
      → check_hash net label contract job ≡ ok id
      → truthy job.tx_hash ≡ some id
  check_hash-ok job id h = by_hash (truthy job.tx_hash) refl h
    where
      by_hash :
          (o : Option Text)
          → truthy job.tx_hash ≡ o
          → check_hash net label contract job ≡ ok id
          → o ≡ some id
      by_hash none e h = absurd (cc (rw (e, check_hash) at h))
      by_hash (some i) e h = cc (rw (e, check_hash) at h)

  check_landed-ok :
      (id : Text) (answer : Option Landed) (l : Landed)
      → check_landed net label contract id answer ≡ ok l
      → (answer ≡ some l) × (l.applied ≢ some false)
  check_landed-ok id none l h = absurd (cc)
  check_landed-ok id (some m) l h = by_applied m.applied refl h
    where
      by_applied :
          (o : Option Bool)
          → m.applied ≡ o
          → check_landed net label contract id (some m) ≡ ok l
          → (some m ≡ some l) × (l.applied ≢ some false)
      by_applied none e h =
          let same : m ≡ l = cc (rw e at h) in rw (← same) (refl, λ f. absurd (cc))
      by_applied (some true) e h =
          let same : m ≡ l = cc (rw e at h) in rw (← same) (refl, λ f. absurd (cc))
      by_applied (some false) e h = absurd (cc (rw e at h))

  attempt_at-Applied :
      (n : ℕ) (tx : LaneTx) → attempt_at net label contract prepare batch n ≡ ok tx → Applied n tx
  unfolding attempt_at
  attempt_at-Applied n tx h =
      let (calls, prepared, h1) = >>=-inv (prepare n) _ h in
      let (built, build_ok, h2) =
        >>=-inv (net.build n contract calls (batch_for net label contract calls batch)) _ h1 in
      let (job, sponsored, h3) = >>=-inv (net.sponsor_unbound n built) _ h2 in
      let (id, hashed, h4) = >>=-inv (check_hash net label contract job) _ h3 in
      let (answer, waited, h5) = >>=-inv (net.wait_landed n id) _ h4 in
      let (landed, checked, h6) = >>=-inv (check_landed net label contract id answer) _ h5 in
      let (indexed, not_failed) = check_landed-ok id answer landed checked in
      record {
        calls = calls;
        built = built;
        job = job;
        tx_id = id;
        landed = landed;
        prepared = prepared;
        build_ok = build_ok;
        sponsored = sponsored;
        identified = check_hash-ok job id hashed;
        indexed = rw indexed at waited;
        not_failed = not_failed;
        hash = cc;
        job_id = cc;
      }

  labelled-ok :
      (r : Result LaneError LaneTx) (tx : LaneTx)
      → labelled net label contract r ≡ ok tx
      → r ≡ ok tx
  labelled-ok (ok t) tx h = cc
  labelled-ok (err e) tx h = absurd (cc)

  -- A transaction that is returned was applied by one of at most three attempts, and each attempt
  -- before that one failed with an error that is worth a rebuild.
  pub build_and_sponsor-Applied :
      (tx : LaneTx)
      → build_and_sponsor net label contract prepare batch ≡ ok tx
      → (n : ℕ) × (n ≤ 2)
        × Applied n tx
        × ((j : ℕ) → j < n → Retried is_rebuildable (attempt_at net label contract prepare batch) j)
  unfolding build_and_sponsor
  build_and_sponsor-Applied tx h =
      let d = retry-Ended is_rebuildable (attempt_at net label contract prepare batch) 2 0 in
      let out = labelled-ok _ tx h in
      (
        d.k,
        omega (arith, d.le_last),
        attempt_at-Applied d.k tx (d.result ∙ out),
        λ j b. d.retried j (omega arith) b,
      )
