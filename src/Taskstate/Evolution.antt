-- ===== src/Taskstate/Evolution.antt =====
-- The life of one task: the statuses that follow one another, and the attempt number.
pub mod Updates
pub mod Operations
pub mod Control
pub mod Writes
pub mod Forever
