-- ===== src/Scenarios.antt =====
-- Runs of the theorems on small concrete tables, and on texts.
mod Tables
mod Controls
mod Queueing
mod Worker
mod Fetcher
mod Isbn
mod ReadingState
mod Bookmarks
mod Names
mod Jobs
mod Identities
