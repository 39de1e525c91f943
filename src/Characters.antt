-- ===== src/Characters.antt =====
-- apps/viewer-api-go/internal/characters: identities of generated characters.
pub mod Episodes
pub mod Identity
pub mod Chains
pub mod Acyclic
pub mod Fuel
pub mod Merged
pub mod Resolved
pub mod Allocator
pub mod Ordinals
pub mod Assigned
