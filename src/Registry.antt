-- ===== src/Registry.antt =====
-- registry/contracts.go and registry/state.go: the directory of running servers and their matches.
pub mod Contracts
pub mod State
pub mod Clone
pub mod Invariant
pub mod Reads
pub mod Refinement
pub mod Listing
mod Tests
