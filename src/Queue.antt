-- ===== src/Queue.antt =====
-- The task queue of db/repositories/runs.py over the tables of db/models.py.
pub mod Rows
pub mod Monad
pub mod Claim
pub mod Complete
pub mod Runs
pub mod Moves
pub mod Keeps
pub mod Fits
pub mod Candidates
pub mod Traces
pub mod Lease
pub mod Once
pub mod Descend
pub mod Outcome
pub mod Unblock
pub mod Order
pub mod Handout
pub mod Recovered
pub mod Reaped
pub mod Lost
pub mod RunState
pub mod Tables
mod Examples
