-- ===== src/JobIndex.antt =====
-- src/job-index.ts: the index over the jobs, what changes it and what is read from it. The numbers
-- of `statusCounts` are natural: an index that was built from the empty one never counts below
-- nothing.
pub mod Types
pub mod Sessions
pub mod Apply
pub mod Upsert
pub mod Shape
pub mod Replies
pub mod Listed
pub mod Moves
pub mod Counted
pub mod History
pub mod Chain
mod Search
pub mod Keyed
pub mod Files
pub mod Record
pub mod Replay
pub mod RoundTrip
pub mod Rebuild
mod Examples
