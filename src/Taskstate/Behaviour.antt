-- ===== src/Taskstate/Behaviour.antt =====
-- What each operation answers on tables that meet the invariant.
pub mod Reading
pub mod Writing
pub mod Control
pub mod Fence
pub mod Ending
pub mod Race
pub mod Decided
pub mod Enqueue
pub mod Reservations
pub mod Resume
pub mod Recover
pub mod Claim
