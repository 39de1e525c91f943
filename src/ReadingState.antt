-- ===== src/ReadingState.antt =====
-- apps/viewer-api-go/internal/state/readingstate: where a reader stopped, under version numbers.
pub mod Repository
pub mod Documents
pub mod Versions
pub mod Updates
