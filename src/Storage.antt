-- ===== src/Storage.antt =====
-- services/novel-fetcher/internal/storage: the names of files and directories.
pub mod Sanitize
pub mod Runes
pub mod Segments
pub mod Lengths
pub mod Spaces
