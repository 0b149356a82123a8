-- ===== src/HostAgent/HostEngine.antt =====
-- hostAgentEngine of pulp-cell/host_agent_runtime.go: the operations of an assignment, on the cell's own
-- creation, retirement and lifecycle effects. The texts of creation's causes, and float64(n) / 1000, are
-- parameters.
pub mod Deletion
mod Tests
use Prim.Native.String.{◌++◌}
use bananagine.Prelude.{
  ℕ, String, ℤ, pos, Bool, true, false, not, ◌||◌, string_eq, ◌==◌, Option, none, some, List,
  if◌then◌else◌,
}
use bananagine.Map.{Map}
use bananagine.Service.{Result, ok, err}
use bananagine.Allocation.Capacity.{Float64}
use bananagine.Orchestration.{CreateServerRequest, ResourceOverride}
use bananagine.Creation.Host.{Host, Cause, DockerError, DockerServer}
use bananagine.Creation.Lookup.{existing_server}
use bananagine.Creation.Core.{Node, CreationCore, CreationError, CreationResult, create_fenced}
use bananagine.Creation.Retire.{retire_server}
use bananagine.Fleet.Host.{FleetHost}
use bananagine.Fleet.Lifecycle.{LifecycleRequest, execute_fleet_lifecycle}
use bananagine.HostAgent.Types.{Invocation, Outcome, EngineError, Engine}
use bananagine.HostAgent.Executable.{ExecutableSpec, ExecutableAssignment, decode_executable}

-- What an operation answers: its outcome, or its error.
abbrev pub Answer : Type 0
Answer = Outcome × Option EngineError

abbrev pub failed : String → Answer
failed message = (
  record { state = ""; container_id = "" },
  some (record { message = message; retryable = none }),
)

-- permanentHostAgentError.
abbrev pub failed_for_good : String → Answer
failed_for_good message = (
  record { state = ""; container_id = "" },
  some (record { message = message; retryable = some false }),
)

abbrev pub reached : String → String → Answer
reached state container_id = (record { state = state; container_id = container_id }, none)

-- The errors of validate and of the lookup; `%w` of a nil error is written out.
abbrev pub cross_host : String
cross_host = "cross-host or empty assignment"

abbrev pub unresolved : String
unresolved = "resolve assigned runtime: "

unfoldable pub is_foreign : String → Invocation → Bool
is_foreign local_host inv = not (inv.host_id == local_host) || inv.workload_id == ""

-- What the lifecycle effects use of docker: `exec` and `restart`, and the verb %q.
pub record Console (World : Type 0) : Type 0 where
  pub exec : String → List String → World → Option DockerError × World
  pub restart : String → World → Option DockerError × World
  pub quote : String → String

-- executeFleetLifecycle reads no file and looks nothing up, so the rest of its host is never asked.
abbrev runtime_of : {World : Type 0} → Console World → FleetHost
runtime_of {World} console = record {
  World = World;
  Wire = Unit;
  get = λ id w. (ok none, w);
  get_owned = λ id w. (ok none, w);
  exec = console.exec;
  restart = console.restart;
  read = λ path w. err false;
  mkdir_all = λ path w. (false, w);
  write = λ path wire w. (false, w);
  rename = λ old new w. (false, w);
  unix_now = λ w. pos 0;
  encode_receipt = λ r. none;
  decode_receipt = λ wire. none;
  encode_response = λ r. none;
  sha256 = λ text. text;
  name_of = λ text. text;
  quote = console.quote;
}

-- The parameters: the host, its console, the cell's node ID and creation core, the decoding of a
-- specification, and the conversions.
module _ (f : Float64) (h : Host f) (console : Console h.World) (local_host : String)
    (core : CreationCore f h) (decode : String → Option ExecutableAssignment)
    (digest : ExecutableSpec → String) (text : Cause f → String) (thousandths : ℤ → f.Amount) where
  unfoldable pub create_request : Invocation → ExecutableSpec → CreateServerRequest f
  create_request inv spec = record {
    template = spec.template;
    server_id = inv.workload_id;
    env = spec.environment;
    resources = some (record {
      memory_limit = spec.resources.memory_bytes;
      cpu_limit = thousandths spec.resources.cpu_millicores;
      max_cpu_cores = f.zero;
      max_ram_mb = pos 0;
      jvm_heap_mb = pos 0;
    });
  }

  abbrev created : Result (CreationError f h) (CreationResult f h) → Answer
  created (err e) = failed (text e.cause)
  created (ok result) = reached "running" result.server.id

  unfoldable pub create : Invocation → Node f h → Answer × Node f h
  unfolding is_foreign create_request create_fenced decode_executable
  create inv n =
      if is_foreign local_host inv
      then (failed cross_host, n)
      else (elim (decode_executable decode digest inv) [
        | err message ↦ (failed_for_good message, n)
        | ok spec ↦
            let (result, n') =
              create_fenced f h core (create_request inv spec) inv.idempotency_key
                inv.idempotency_key n in
            (created result, n')
      ])

  -- An effect on the runtime of a workload, and the outcome of its success.
  abbrev effect_on :
      Invocation
      → (DockerServer f → h.World → Option String × h.World)
      → (DockerServer f → Answer)
      → Node f h
      → Answer × Node f h
  effect_on inv effect outcome n =
      let (found, w) = existing_server f h inv.workload_id n.world in
      elim found [
        | err cause ↦ (failed (unresolved ++ text cause), record n { world = w })
        | ok runtime ↦ elim runtime [
          | none ↦ (failed (unresolved ++ "%!w(<nil>)"), record n { world = w })
          | some server ↦
              let (failure, w') = effect server w in
              elim failure [
                | some message ↦ (failed message, record n { world = w' })
                | none ↦ (outcome server, record n { world = w' })
              ]
        ]
      ]

  abbrev restarted : DockerServer f → h.World → Option String × h.World
  restarted server w =
      let (failure, w') = console.restart server.id w in
      (elim failure [ none ↦ none | some e ↦ some e.message ], w')

  unfoldable pub start : Invocation → Node f h → Answer × Node f h
  unfolding is_foreign existing_server
  start inv n =
      let rest = effect_on inv restarted (λ server. reached "running" server.id) n in
      if is_foreign local_host inv then (failed cross_host, n) else rest

  abbrev lifecycle_request : Invocation → Option (Map String String) → LifecycleRequest f
  lifecycle_request inv env = record {
    server_id = inv.workload_id;
    node_id = local_host;
    resources = record { cpu = f.zero; memory = pos 0 };
    env = env;
  }

  -- executeFleetLifecycle on the server that was found.
  abbrev lifecycle :
      String
      → Invocation
      → Option (Map String String)
      → DockerServer f
      → h.World
      → Option String × h.World
  lifecycle action inv env server =
      execute_fleet_lifecycle f (runtime_of console) (λ r. none) action server.id
        (lifecycle_request inv env)

  unfoldable pub update : Invocation → Node f h → Answer × Node f h
  unfolding is_foreign existing_server execute_fleet_lifecycle decode_executable
  update inv n =
      if is_foreign local_host inv
      then (failed cross_host, n)
      else (elim (decode_executable decode digest inv) [
        | err message ↦ (failed_for_good message, n)
        | ok spec ↦
            effect_on inv (lifecycle "reconfigure" inv spec.environment)
              (λ server. reached "running" server.id) n
      ])

  unfoldable pub stop : Invocation → Node f h → Answer × Node f h
  unfolding is_foreign existing_server execute_fleet_lifecycle
  stop inv n =
      let rest = effect_on inv (lifecycle "suspend" inv none) (λ server. reached "stopped" "") n in
      if is_foreign local_host inv then (failed cross_host, n) else rest

  unfoldable pub deleted : Option DockerError → Answer
  deleted none = reached "deleted" ""
  deleted (some e) = failed e.message

  unfoldable pub delete : Invocation → Node f h → Answer × Node f h
  unfolding is_foreign existing_server retire_server deleted
  delete inv n =
      let (found, w) = existing_server f h inv.workload_id n.world in
      let seen : Node f h = record n { world = w } in
      if is_foreign local_host inv then (failed cross_host, n) else (elim found [
        | err cause ↦ (failed (text cause), seen)
        | ok runtime ↦ elim runtime [
          | none ↦ (reached "deleted" "", seen)
          | some server ↦
              let (failure, n') = retire_server f h server.id false inv.workload_id seen in
              (deleted failure, n')
        ]
      ])

  unfoldable pub host_agent_engine : Engine (Node f h)
  unfolding create start update stop delete
  host_agent_engine = record {
    create = create;
    start = start;
    update = update;
    stop = stop;
    delete = delete;
  }
