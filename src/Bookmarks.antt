-- ===== src/Bookmarks.antt =====
-- apps/viewer-api-go/internal/state/bookmarks: the bookmarks of all novels, in one file.
pub mod Repository
pub mod Normal
pub mod Ledger
pub mod Refines
pub mod Refusals
