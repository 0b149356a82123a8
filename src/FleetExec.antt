-- ===== src/FleetExec.antt =====
-- pulp-cell/exec_idempotency_routes.go and pulp-cell/execallow/execallow.go: commands that run at most
-- once for an idempotency key.
pub mod Request
pub mod Handler
pub mod Once
mod Tests
