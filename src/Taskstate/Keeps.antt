-- ===== src/Taskstate/Keeps.antt =====
-- The operations of taskstate/sqlite.go and the invariant of its tables.
pub mod Enqueue
pub mod Control
pub mod Writes
pub mod Empty
pub mod Endings
