-- ===== src/RemoteLane.antt =====
-- srv/lib/lane-remote.ts: the lane that proves and signs locally and lets a hosted service sponsor and
-- submit the transactions.
pub mod Settings
pub mod Signers
pub mod Hashes
pub mod Sponsoring
pub mod Landing
pub mod Carts
pub mod Worker
mod Tests
