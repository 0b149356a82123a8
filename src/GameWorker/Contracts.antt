-- ===== src/GameWorker/Contracts.antt =====
-- gameworker/contracts.go, with `PollResult` of state.go. A byte slice is `none` where it is nil.
use bananagine.Prelude.{ℕ, String, ℤ, pos, Bool, Option, List}
use bananagine.Map.{Map}

abbrev pub snapshot_version : ℤ
snapshot_version = pos 1

abbrev pub state_pending : String
state_pending = "pending"

abbrev pub state_completed : String
state_completed = "completed"

abbrev pub state_failed : String
state_failed = "failed"

abbrev pub state_cancelled : String
state_cancelled = "cancelled"

pub record SubmitRequest : Type 0 where
  pub idempotency_key : String
  pub method : String
  pub url : String
  pub headers : Option (Map String String)
  pub body : Option (List ℕ)
  pub timeout_ms : ℕ

pub record Job : Type 0 where
  pub idempotency_key : String
  pub state : String
  pub status : ℤ
  pub headers : Option (Map String String)
  pub body : Option (List ℕ)
  pub error : String

pub record Snapshot : Type 0 where
  pub version : ℤ
  pub jobs : List Job

pub record PollResult : Type 0 where
  pub done : Bool
  pub status : ℤ
  pub headers : Option (Map String String)
  pub body : Option (List ℕ)
  pub error : String
