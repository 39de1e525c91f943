-- ===== src/Extraction.antt =====
-- apps/viewer-api-go/internal/extraction: the jobs that extract characters and terms.
pub mod Jobs
pub mod Names
pub mod Files
pub mod Reading
pub mod Saving
pub mod Controls
pub mod Recovery
pub mod Directory
pub mod Records
pub mod OneActive
pub mod Keeps
pub mod History
pub mod View
pub mod Transitions
pub mod Lives
pub mod Recovered
pub mod Coordinator
pub mod Oldest
