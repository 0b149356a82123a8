-- ===== src/HostAgent.antt =====
-- hostagent/ and pulp-cell/host_agent_runtime.go: a host asks Evolution for its assignments, runs them
-- on its own engine, and reports each one.
pub mod Types
pub mod Config
pub mod Client
pub mod Limits
pub mod Executable
pub mod Runtime
pub mod HostEngine
mod Tests
