-- ===== src/Engine/Theorems.antt =====
-- packages/domain/src/engine.ts: the theorems about its operations.
pub mod Creation
pub mod WellFormed
pub mod Frozen
pub mod Lifecycle
pub mod Versions
pub mod Operations
pub mod Settlement
pub mod Current
pub mod Clarification
pub mod Expiry
pub mod Evaluation
