-- ===== src/TemplateCatalog/Contracts.antt =====
-- templatecatalog/contracts.go. A JSON text is a string: no operation tells a nil slice from an empty
-- one.
use bananagine.Prelude.{ℕ, String, ℤ, pos, List}
use bananagine.Allocation.Capacity.{Float64}

abbrev pub snapshot_version : ℤ
snapshot_version = pos 1

module _ (f : Float64) where
  pub record Entry : Type 0 where
    pub name : String
    pub game : String
    pub label : String
    pub engine : String
    pub cpu_limit : f.Amount
    pub memory_limit : ℤ
    pub config_json : String
    pub runtime_json : String

  pub record ReplaceRequest : Type 0 where
    pub request_id : String
    pub entries : List Entry

  pub record Catalog : Type 0 where
    pub revision : ℕ
    pub entries : List Entry

  pub record Snapshot : Type 0 where
    pub version : ℤ
    pub revision : ℕ
    pub entries : List Entry

  pub record ImportRequest : Type 0 where
    pub request_id : String
    pub snapshot : Snapshot
