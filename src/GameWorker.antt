-- ===== src/GameWorker.antt =====
-- gameworker/contracts.go and gameworker/state.go: jobs that the host's workers run, and their receipts.
pub mod Contracts
pub mod State
pub mod Replay
pub mod Settled
mod Tests
