-- ===== src/Policy.antt =====
-- The policy engine and the checks in front of it (src/policy/, src/services/policyService.ts).
pub mod Types
pub mod Matching
pub mod Sort
pub mod Engine
pub mod Service
pub mod Approval
mod Tests
