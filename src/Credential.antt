-- ===== src/Credential.antt =====
-- Credentials: their rows, their versions and secrets, and the operations on them
-- (src/services/credentialService.ts, src/services/types.ts, src/crypto/).
pub mod Types
pub mod Metadata
pub mod Queries
pub mod Versions
pub mod Store
pub mod Lifecycle
pub mod Stored
pub mod Recall
pub mod Dedup
pub mod Extent
pub mod Text
pub mod Deletion
pub mod Revocation
pub mod Search
pub mod Samples
mod Tests
