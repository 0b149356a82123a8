-- ===== src/Allocation.antt =====
-- pulp-cell/ports.go, pulp-cell/ips.go and pulp-cell/capacity.go: what a runtime holds of the node.
pub mod Ports
pub mod Ips
pub mod Capacity
mod Tests
