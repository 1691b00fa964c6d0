-- ===== src/Core.antt =====
-- SEMA Core: its identifiers and records, src/core and src/stores/in-memory-store.ts.
pub mod Exec
pub mod Rules
pub mod Stays
pub mod Types
pub mod Store
pub mod Reserving
pub mod Requests
pub mod Consuming
pub mod Sound
pub mod Kept
pub mod Once
pub mod Fresh
pub mod Inputs
pub mod Sema
pub mod Issuing
mod Tests
