-- ===== src/Creation.antt =====
-- pulp-cell/creation_core.go, idempotent_create.go, retirement_core.go and recreate_core.go: how a
-- runtime is created, retired and replaced.
pub mod Template
pub mod Host
pub mod Lookup
pub mod Network
pub mod Core
pub mod Retire
pub mod Recreate
pub mod Tests
