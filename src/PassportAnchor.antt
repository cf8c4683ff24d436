-- ===== src/PassportAnchor.antt =====
-- srv/lib/passport-anchor.ts: anchoring primitives.
pub mod Network
pub mod Jobs
pub mod Steps
pub mod Anchoring
pub mod ContentRoot
