-- ===== src/HostAgent/Executable.antt =====
-- DecodeExecutable: the specification in an assignment's payload. JSON and SHA-256 are parameters:
-- `decode` is json.Unmarshal and `digest` the digest of a specification's JSON in hexadecimal.
use bananagine.Prelude.{
  ℕ, nat_eq, String, ℤ, not, ◌||◌, string_eq, ◌==◌, Option, none, some, if◌then◌else◌,
}
use bananagine.Map.{Map}
use bananagine.Service.{Result, ok, err}
use bananagine.HostAgent.Types.{Invocation}

abbrev pub executable_spec_version : String
executable_spec_version = "sessions.workload-exec.v1"

pub record ExecutableResources : Type 0 where
  pub cpu_millicores : ℤ
  pub memory_bytes : ℤ
  pub storage_bytes : ℤ

pub record ExecutableSpec : Type 0 where
  pub version : String
  pub generation : ℕ
  pub template : String
  pub environment : Option (Map String String)
  pub resources : ExecutableResources
  pub sha256 : String

pub record ExecutableAssignment : Type 0 where
  pub workload_id : String
  pub host_id : String
  pub generation : ℕ
  pub executable : Option ExecutableSpec

module _ (decode : String → Option ExecutableAssignment) (digest : ExecutableSpec → String) where
  -- The digest is taken without the digest that the specification carries.
  unfoldable pub digest_checked : ExecutableSpec → Result String ExecutableSpec
  digest_checked spec =
      if spec.sha256 == "" || not (digest (record spec { sha256 = "" }) == spec.sha256)
      then err "executable specification digest mismatch"
      else ok spec

  unfoldable pub executable_checked : Option ExecutableSpec → Result String ExecutableSpec
  unfolding digest_checked
  executable_checked none = err "assignment has no executable specification"
  executable_checked (some spec) =
      if not (spec.version == executable_spec_version)
        || spec.generation == 0
        || spec.template == ""
      then err "assignment has no executable specification"
      else digest_checked spec

  unfoldable pub decode_executable : Invocation → Result String ExecutableSpec
  unfolding executable_checked
  decode_executable inv = elim (decode inv.payload) [
    | none ↦ err "invalid executable assignment payload"
    | some payload ↦
        if not (payload.workload_id == inv.workload_id)
          || not (payload.host_id == inv.host_id)
          || not (payload.generation == inv.generation)
        then err "assignment identity or generation mismatch"
        else executable_checked payload.executable
  ]
