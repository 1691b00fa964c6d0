-- ===== src/Topology.antt =====
-- src/topology/local-nodes.ts: the nodes that this Core holds.
pub mod Types
pub mod Counter
pub mod Store
pub mod Node
pub mod Placing
pub mod Issuing
pub mod Children
pub mod Organization
pub mod Listing
pub mod Requests
mod Tests
