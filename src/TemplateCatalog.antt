-- ===== src/TemplateCatalog.antt =====
-- templatecatalog/contracts.go and templatecatalog/state.go: the catalog of game templates.
pub mod Contracts
pub mod State
pub mod Replay
pub mod Validation
mod Tests
