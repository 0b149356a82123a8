-- ===== src/Fleet.antt =====
-- pulp-cell/fleet_lifecycle_routes.go and pulp-cell/fleet_world_transfer_routes.go: effects on a runtime
-- that the fleet asks for, each under an idempotency key with a durable receipt.
pub mod Host
pub mod Tokens
pub mod Console
pub mod Lifecycle
pub mod Access
pub mod Transfer
pub mod Observation
mod Tests
