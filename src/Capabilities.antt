-- ===== src/Capabilities.antt =====
-- Capabilities, the services that provide them and the work that is done: src/capabilities.
pub mod Values
pub mod Offers
pub mod Schema
pub mod Records
pub mod Contracts
pub mod Inputs
pub mod Registry
pub mod Entries
pub mod Consistent
pub mod Added
pub mod Adding
pub mod Steps
pub mod Keeping
pub mod Ending
pub mod Losing
pub mod Legacy
pub mod Moving
pub mod Again
pub mod Calls
pub mod Silent
pub mod Answers
pub mod Capped
pub mod Lengths
pub mod Fitting
pub mod Fitted
pub mod Naming
pub mod Suiting
pub mod Matching
pub mod Tests
