-- ===== src/HostAgent/Types.antt =====
-- The records of hostagent/client.go, and what a client stands on: the clock, the transport, JSON and
-- SHA-256 are parameters. An instant is a number of nanoseconds; a payload is the text of its bytes.
use bananagine.Prelude.{ℕ, String, ℤ, Bool, Option, List}
use bananagine.Service.{Result}

pub record PrincipalCredential : Type 0 where
  pub token : String
  pub expires_at : ℤ

pub record Config : Type 0 where
  pub base_url : String
  pub host_id : String
  pub agent_id : String
  pub principals : List PrincipalCredential
  pub lease : ℤ
  pub max_actions : ℤ
  pub retry_delay : ℤ

pub record Invocation : Type 0 where
  pub host_id : String
  pub agent_id : String
  pub workload_id : String
  pub generation : ℕ
  pub payload : String
  pub idempotency_key : String

pub record Outcome : Type 0 where
  pub state : String
  pub container_id : String

-- An error of an engine; `retryable` is none where the error has no such method.
pub record EngineError : Type 0 where
  pub message : String
  pub retryable : Option Bool

pub record HostObservation : Type 0 where
  pub contract_version : String
  pub command_id : String
  pub observed : String
  pub heartbeat_generation : ℕ
  pub at_unix_milli : ℤ
  pub cpu_millicores : ℤ
  pub memory_bytes : ℤ
  pub storage_bytes : ℤ

pub record ClaimRequest : Type 0 where
  pub version : String
  pub command_id : String
  pub expected_attempt : ℕ
  pub now_unix_milli : ℤ
  pub lease_millis : ℤ

pub record RetryRequest : Type 0 where
  pub version : String
  pub command_id : String
  pub workload_id : String
  pub expected_attempt : ℕ
  pub retry_at_unix_milli : ℤ

pub record ExecutionEvidence : Type 0 where
  pub version : String
  pub server_id : String
  pub host_id : String
  pub container_id : String
  pub state : String
  pub completed_at_unix_milli : ℤ

pub record ExactReceipt : Type 0 where
  pub lease_id : String
  pub attempt : ℕ
  pub generation : ℕ
  pub payload_sha256 : String
  pub success : Bool
  pub observed_state : String
  pub detail : String
  pub recorded_at_unix_milli : ℤ
  pub evidence : Option ExecutionEvidence

pub record ReceiptRequest : Type 0 where
  pub version : String
  pub command_id : String
  pub workload_id : String
  pub receipt : ExactReceipt

pub record CapabilityRequest : Type 0 where
  pub workload_id : String
  pub operation : String
  pub expires_at_unix : ℤ

pub record Desired : Type 0 where
  pub workload_id : String
  pub host_id : String
  pub generation : ℕ
  pub revision : ℕ
  pub operation : String
  pub payload : String
  pub payload_sha256 : String
  pub status : String

pub record Fence : Type 0 where
  pub lease_id : String
  pub attempt : ℕ
  pub generation : ℕ
  pub payload_sha256 : String
  pub lease_expires_unix_milli : ℤ

pub record Action : Type 0 where
  pub desired : Desired
  pub fence : Fence

-- `Result` in the source.
pub record ClaimResult : Type 0 where
  pub desired : Option Desired
  pub action : Option Action
  pub settled : Bool

-- What a client posts.
pub data Message : Type 0 where
  observe : HostObservation → Message
  claim : ClaimRequest → Message
  receipt : ReceiptRequest → Message
  retry : RetryRequest → Message
  capability : CapabilityRequest → Message

-- `post` answers a status and a body, or the text of its error. `cut` is the slice of a text's first
-- bytes, `unix_milli`, `unix` and `add` are the methods of time.Time, and `milliseconds` that of
-- time.Duration.
pub record AgentHost : Type 1 where
  pub World : Type 0
  pub now : World → ℤ × World
  pub post : String → List (String × String) → String → World → Result String (ℤ × String) × World
  pub encode : Message → Option String
  pub decode_result : String → Option ClaimResult
  pub decode_token : String → Option String
  pub sha256 : String → String
  pub cut : String → ℕ → String
  pub unix_milli : ℤ → ℤ
  pub unix : ℤ → ℤ
  pub add : ℤ → ℤ → ℤ
  pub milliseconds : ℤ → ℤ

-- The five operations on a workload.
pub record Engine (World : Type 0) : Type 0 where
  pub create : Invocation → World → (Outcome × Option EngineError) × World
  pub start : Invocation → World → (Outcome × Option EngineError) × World
  pub update : Invocation → World → (Outcome × Option EngineError) × World
  pub stop : Invocation → World → (Outcome × Option EngineError) × World
  pub delete : Invocation → World → (Outcome × Option EngineError) × World
