-- ===== src/Jobs.antt =====
-- crates/workers: the queue of background jobs, the worker that empties it, and the scan of
-- artifacts that finishes the publication of a release.
pub mod Queue
pub mod Claim
pub mod Claimed
pub mod Steps
pub mod Invariant
pub mod Worker
pub mod Settled
mod Tests
