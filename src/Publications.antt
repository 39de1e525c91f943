-- ===== src/Publications.antt =====
-- apps/viewer-api-go/internal/publications: identifiers of printed editions.
pub mod Isbn
pub mod Checksum
