-- ===== src/Work.antt =====
-- The work that commands ask of services: src/capabilities/work.ts.
pub mod Needs
pub mod Enough
pub mod Types
pub mod Store
pub mod Calls
pub mod Life
pub mod Reasons
pub mod Passing
pub mod Answering
pub mod Reporting
pub mod Kept
pub mod Stays
pub mod Served
pub mod Listed
pub mod Settling
pub mod Settled
pub mod ServedTests
pub mod Planning
pub mod Planned
pub mod PlanTests
pub mod Became
pub mod Ended
pub mod Offered
pub mod Tests
