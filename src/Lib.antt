-- ===== src/Lib.antt =====
-- NIGHTPASS issues digital product passports and anchors them on the Midnight chain. This library
-- models the parts of its server that decide what is anchored, proven, verified and disclosed.
--
-- A passport's values are the leaves of a salted content tree. The root, the schema id and the hash
-- of the payload go into an anchor plan of one transaction, and single values are proven by a proof
-- cart of claims. A chain lane submits both; the remote lane builds them locally and lets a hosted
-- service sponsor them. What the ledger holds is read back as verdicts. A re-anchored version is
-- compared with the one before it by slots, and a public reader's query is refused if it uses a
-- restricted column.
--
-- The demo lets a visitor pick claims, checks them and the caps under a lock, and queues a run when
-- the request commits. A queue starts runs into a number of slots, a pause apart; a run leases a
-- sponsor and a vault, is created, anchored and proven through the services, and gives its leases
-- back however it ends. The life cycle API serves documents over HTTP: a request's credential names
-- its role, a guard stands before each route that writes documents and, on a public host, before those
-- that read them, but none before the routes of the test adapter, and a reader sees the view of its role. The passport service redacts rows at the tier of
-- their reader, which a grant on the chain or in the log can raise for one passport, and registers
-- the partners that grants are given to; for anyone it checks an anchor, a version of it or a proven
-- claim on the chain.
--
-- Files and the code they are about (paths from the repository's root):
--   Base               text, decimals, JavaScript numbers, maps, regular expressions, retry, trim and
--                      split, as far as the code uses them; Acts has actions on a state that may throw,
--                      Counts the lists of ids
--   AnchorPlan         srv/lib/anchor-plan.ts: checkHex32, anchorTxPlan, anchorCallPlan
--   ProofPlan          srv/lib/proof-plan.ts: claimValidUntil, claimKey, responseClaimKey,
--                      proofCartPlan
--   ChainLane          srv/lib/chain-lane.ts: the data of the seam and claimIdsByKey
--   ChainVerify        srv/lib/chain-verify.ts: verifyContractTx
--   StateVerify        srv/lib/state-verify.ts: the verdicts from the ledger's state
--   PassportAnchor     srv/lib/passport-anchor.ts: Network (networks and peers), Jobs
--                      (waitForJobResult), Steps (runChainStep), Anchoring (anchorPassport),
--                      ContentRoot (buildContentRoot)
--   VersionIntegrity   srv/lib/version-integrity.ts: masks and the comparison of slots
--   QueryGuard         srv/lib/query-guard.ts: probingRefs, restrictedProbe
--   DemoClaims         srv/lib/demo-claims.ts: catalog, validateClaims, demoClaimList
--   DemoValidation     srv/lib/demo-validation.ts, with demoProfile and isProfileId
--   RemoteLane         srv/lib/lane-remote.ts: configuration, signers, hashes, sponsoring, carts,
--                      and the proxy of its worker thread as a step relation
--   ProducerWallets    srv/lib/producer-wallets.ts
--   DemoService        srv/demo-service.ts: Leases (sponsors and vaults), Queue (processQueue and its
--                      events as a step relation), Caps (the counts of runs and testers), Polls and
--                      Execute (executeRun and its timeline), Actions (createDemoPassport, the
--                      status of a run, detachedWrite)
--   LifeCycle          srv/lib/dpp-api.ts with srv/lib/dpp-token.ts: Handlers (roles, guards and
--                      routes), Adapter (TestSetup and TestTeardown), Endpoints (all requests)
--   PassportService    srv/passport-service.ts: Grants (effectiveGrantsFor), Reads (the handlers
--                      before and after READ), Partners (registerPartner), Verify
--                      (verifyOnChain), Versions (verifyAnchorVersion, resolveByHash), Probes and
--                      CrossRoots (the checks of claims, of one anchor and of two)
--
-- A component's file has its state as records, its data as data types and a function for each
-- function of the source, in snake case; the files below it have the theorems. A throw is a value of
-- Result, an error message a constructor. Text that the code takes apart is a list of code points,
-- and its case is that of ASCII. Numbers are exact: a JavaScript number is a fraction, an infinity or
-- NaN, and a mask is a natural number. The expiry of a cart is one too, so that of its check only the
-- test for zero is left. A request for a passport reads its tester before the lock, and other events may
-- come between the gate and its answer.
--
-- Loops are structural. Waiting for a job has as many rounds as its time allows by the interval, at
-- least one; a chain step and a sponsored build have three attempts; the lookup of a hash has six if
-- no other number is given. The digits of a number are written on fuel of one more than the number,
-- which is enough, since each round divides it by ten. A poll of a run has one round more than its
-- time allows by the pause between two polls, which is enough where a poll takes that long; a
-- detached write has three attempts.
--
-- Requests to NIGHTGATE, the indexer, the SDK and the environment are parameters: a poll or an
-- attempt is a function of its number. Digests, the vault's pure circuits and the Merkle tree are
-- parameters too, and nothing is assumed of them. Pauses, logging, the cipher and the database are
-- left out, as are the producer, sandbox and simulator services, the history, explorer and credential
-- actions of the passport service, the server and the plugin lane. A launcher call of the demo reads the clock once, and a
-- database statement is a step that either answers or throws. Access to a passport by one reader is
-- one read of the tables: the memo of a request's grantees is left out.
pub mod Base
pub mod AnchorPlan
pub mod ProofPlan
pub mod ChainLane
pub mod ChainVerify
pub mod StateVerify
pub mod PassportAnchor
pub mod VersionIntegrity
pub mod QueryGuard
pub mod DemoClaims
pub mod DemoValidation
pub mod RemoteLane
pub mod ProducerWallets
pub mod DemoService
pub mod LifeCycle
pub mod PassportService
