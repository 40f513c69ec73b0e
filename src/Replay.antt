-- ===== src/Replay.antt =====
-- src/features/share/ledger-replay/ledger-replay.ts: the replay of a ledger over table slots.
pub mod State
pub mod Checks
pub mod Steps
pub mod Run
pub mod Fields
pub mod Atomic
pub mod Failures
pub mod Sticky
pub mod Success
pub mod Referrers
pub mod Renames
pub mod Removals
pub mod Integrity
pub mod Entries
pub mod Results
pub mod Consistency
pub mod Start
mod Tests
