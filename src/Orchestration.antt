-- ===== src/Orchestration.antt =====
-- orchestration/contracts.go: the values that callers exchange with Bananagine.
use bananagine.Prelude.{String, ℤ, Bool, Option}
use bananagine.Map.{Map}
use bananagine.Allocation.Capacity.{Float64}

module _ (f : Float64) where
  open f use {Amount}

  pub record ResourceOverride : Type 0 where
    pub memory_limit : ℤ
    pub cpu_limit : Amount
    pub max_cpu_cores : Amount
    pub max_ram_mb : ℤ
    pub jvm_heap_mb : ℤ

  pub record CreateServerRequest : Type 0 where
    pub template : String
    pub server_id : String
    pub env : Option (Map String String)
    pub resources : Option ResourceOverride

  pub record RecreateServerRequestV1 : Type 0 where
    pub version : ℤ
    pub idempotency_key : String
    pub receipt_id : String
    pub immutable_spec_sha256 : String
    pub replacement : CreateServerRequest

  pub record Server : Type 0 where
    pub id : String
    pub name : String
    pub node_id : String
    pub world_name : String
    pub status : String
    pub ip : String
    pub ports : Option (Map String ℤ)
    pub cpu_limit : Amount
    pub memory_limit : ℤ

  pub record RecreateServerReceiptV1 : Type 0 where
    pub version : ℤ
    pub idempotency_key : String
    pub receipt_id : String
    pub old_container_id : String
    pub replacement : Server
    pub replacement_ready : Bool
    pub old_retired : Bool
