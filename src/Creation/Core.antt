-- ===== src/Creation/Core.antt =====
-- pulp-cell/creation_core.go: `Create` and `CreateFenced`. The functions below are its stages in the
-- order of the source; each calls the next. `status` is the HTTP status of a `creationError`.
pub mod Retry
pub mod Atomic
pub mod Again
use Prim.Native.String.{◌++◌}
use bananagine.Prelude.{
  ℕ, String, ℤ, pos, Bool, true, false, not, ◌&&◌, ◌||◌, string_eq, ◌==◌, Option, none, some, List,
  [], ◌∷◌, if◌then◌else◌,
}
use bananagine.Map.{Map, get, put}
use bananagine.Map.Values.{put_all}
use bananagine.Text.{trim_space}
use bananagine.Text.Strings.{to_lower}
use bananagine.Text.Decimal.{decimal_int}
use bananagine.Text.Identity.{valid_recreate_token}
use bananagine.Service.{Result, ok, err}
use bananagine.Allocation.Ports.Pools
use bananagine.Allocation.Ports.Pools.{PortPoolSet}
use bananagine.Allocation.Ips
use bananagine.Allocation.Ips.{IpPool}
use bananagine.Allocation.Capacity
use bananagine.Allocation.Capacity.{Float64, Tracker, CapacityError}
use bananagine.Orchestration.{CreateServerRequest, ResourceOverride, Server}
use bananagine.Resources
use bananagine.Resources.{entries, Container}
use bananagine.Creation.Template.{
  PortSpec, ContainerSpec, Template, filter_create_platforms, expand_volumes,
}
use bananagine.Creation.Host.{
  DockerServer, Cause, docker_error, capacity_error, hook_error, template_not_found,
  needs_fenced_recovery, retire_failed, Host,
}
use bananagine.Creation.Lookup.{existing_server, create_or_resolve}
use bananagine.Creation.Network.{Network, allocate_create_network, release_network}

-- failedCreateRuntimeStatus.
unfoldable pub failed_create_runtime_status : String → Bool
unfolding to_lower trim_space
failed_create_runtime_status status =
    let s = to_lower (trim_space status) in s == "stopped" || s == "exited" || s == "dead"

module _ (f : Float64) (h : Host f) where
  open h use {World, hook, unix_nano, can_fit}

  -- What the operations change: the trackers, and the world beyond the cell.
  pub record Node : Type 0 where
    pub capacity : Tracker f
    pub ipp : IpPool
    pub port_pools : PortPoolSet
    pub world : World

  pub record CreationError : Type 0 where
    pub status : ℕ
    pub cause : Cause f

  pub record CreationResult : Type 0 where
    pub server : Server f
    pub existing : Bool

  abbrev pub Outcome : Type 0
  Outcome = Result CreationError CreationResult × Node

  -- `recover_failed` is none where Go's field is nil.
  pub record CreationCore : Type 0 where
    pub templates : Map String (Template f)
    pub external_host : String
    pub runtime_node_id : String
    pub recover_failed : Option (String → String → Node → Option (Cause f) × Node)

  abbrev fail : ℕ → Cause f → Result CreationError CreationResult
  fail status cause = err (record { status = status; cause = cause })

  -- responseServer, with orchestrationResponseServer and toOrchestrationServer.
  unfoldable pub response_server : CreationCore → DockerServer f → String → Server f
  response_server core server server_id = record {
    id = server.id;
    name = server_id;
    node_id = core.runtime_node_id;
    world_name = server_id;
    status = server.status;
    ip = if core.external_host == "" then server.ip else core.external_host;
    ports = server.ports;
    cpu_limit = server.cpu_limit;
    memory_limit = server.memory_limit;
  }

  -- releaseResources.
  unfoldable pub release_resources : Option String → String → Node → Node
  unfolding release_network
  release_resources address server_id n =
      let (ipp', ps') = release_network address n.ipp n.port_pools server_id in
      record n { ipp = ipp'; port_pools = ps' }

  port_key : PortSpec → String
  port_key p = if p.name == "" then decimal_int p.container else p.name

  put_missing : Map String ℤ → String → ℤ → Map String ℤ
  put_missing m key port = elim (get m key) [ none ↦ put m key port | some _ ↦ m ]

  put_specs : Map String ℤ → List PortSpec → Map String ℤ
  unfolding put_missing port_key
  put_specs m [] = m
  put_specs m (p ∷ rest) = put_specs (put_missing m (port_key p) p.host) rest

  -- The ports of the answer: those that docker reports, and the declared or the allocated ones.
  unfoldable pub reported_ports : Option (Map String ℤ) → List PortSpec → ℤ → Map String ℤ
  unfolding put_specs
  reported_ports ports [] port = put_missing (entries ports) (decimal_int port) port
  reported_ports ports (p ∷ rest) port = put_specs (entries ports) (p ∷ rest)

  -- The ownership moves from the logical ID to the ID of the container.
  unfoldable pub re_key_resources : Option String → String → String → Node → Node
  re_key_resources address server_id container_id n = record n {
    capacity = Capacity.commit f n.capacity server_id container_id;
    ipp = elim address [ none ↦ n.ipp | some _ ↦ Ips.re_key n.ipp server_id container_id ];
    port_pools = elim address [
      | none ↦ Pools.re_key n.port_pools server_id container_id
      | some _ ↦ n.port_pools
    ];
  }

  -- The release that createWithSpeculativeResources runs on an error and on a lost race.
  unfoldable pub release_speculative : Option String → String → Node → Node
  unfolding release_resources
  release_speculative address server_id n =
      release_resources address server_id
        (record n { capacity = Capacity.release f n.capacity server_id })

  unfoldable pub settle :
      CreationCore → String → Network f → Node → Result (Cause f) (DockerServer f × Bool) → Outcome
  unfolding release_speculative re_key_resources reported_ports response_server
  settle core server_id network n (err cause) =
      (fail 500 cause, release_speculative network.address server_id n)
  settle core server_id network n (ok (server, true)) = (
    ok (record { server = response_server core server server_id; existing = true }),
    release_speculative network.address server_id n,
  )
  settle core server_id network n (ok (server, false)) =
      let named : DockerServer f = record server {
        name = server_id;
        ports = some (reported_ports server.ports network.container.ports network.port);
      } in
      (
        ok (record { server = response_server core named server_id; existing = false }),
        re_key_resources network.address server_id server.id n,
      )

  unfoldable pub create_container : CreationCore → String → Network f → Node → Outcome
  unfolding settle
  create_container core server_id network n =
      let (created, w) =
        create_or_resolve f h server_id (record (network.container) { name = server_id }) n.world in
      settle core server_id network (record n { world = w }) created

  -- The limits after resources.Apply.
  unfoldable pub limited : CreateServerRequest f → ContainerSpec f → ContainerSpec f
  limited req c =
      let rc : Container f = record {
        memory_limit = c.memory_limit;
        cpu_limit = c.cpu_limit;
        memory_swap = c.memory_swap;
        environment = c.environment;
      } in
      let no_override : ResourceOverride f = record {
        memory_limit = pos 0;
        cpu_limit = f.zero;
        max_cpu_cores = f.zero;
        max_ram_mb = pos 0;
        jvm_heap_mb = pos 0;
      } in
      let applied =
        Resources.apply f rc (elim req.resources [ none ↦ no_override | some o ↦ o ]) req.env in
      record c {
        memory_limit = applied.memory_limit;
        cpu_limit = applied.cpu_limit;
        memory_swap = applied.memory_swap;
        environment = applied.environment;
      }

  after_capacity :
      CreationCore → String → Network f → Node → Result (CapacityError f) (Unit {0}) → Outcome
  unfolding create_container release_resources
  after_capacity core server_id network n (err e) =
      (fail 503 (capacity_error e), release_resources network.address server_id n)
  after_capacity core server_id network n (ok _) = create_container core server_id network n

  with_limits : CreateServerRequest f → Network f → Network f
  unfolding limited
  with_limits req network = record network { container = limited req network.container }

  unfoldable pub reserve_capacity :
      CreationCore → CreateServerRequest f → String → Network f → Node → Outcome
  unfolding after_capacity with_limits
  reserve_capacity core req server_id network n =
      let limits = with_limits req network in
      let (tracker, fits) =
        Capacity.try_allocate f can_fit n.capacity server_id limits.container.cpu_limit
          limits.container.memory_limit in
      after_capacity core server_id limits (record n { capacity = tracker }) fits

  with_environment : Network f → Map String String → Network f
  with_environment network env = record network {
    container = record (network.container) {
      environment = some (put_all (entries network.container.environment) env);
    };
  }

  after_hook :
      CreationCore
      → CreateServerRequest f
      → String
      → Network f
      → Node
      → Result String (Map String String)
      → Outcome
  unfolding reserve_capacity with_environment release_resources
  after_hook core req server_id network n (err e) =
      (fail 500 (hook_error e), release_resources network.address server_id n)
  after_hook core req server_id network n (ok env) =
      reserve_capacity core req server_id (with_environment network env) n

  unfoldable pub run_hook :
      CreationCore → CreateServerRequest f → Template f → String → Network f → Node → Outcome
  unfolding reserve_capacity after_hook
  run_hook core req tmpl server_id network n =
      let (answer, w) = hook tmpl.pre_start n.world in
      if tmpl.pre_start == ""
      then reserve_capacity core req server_id network n
      else after_hook core req server_id network (record n { world = w }) answer

  -- The container before allocation.
  unfoldable pub prepared : CreateServerRequest f → Template f → String → ContainerSpec f
  unfolding filter_create_platforms expand_volumes
  prepared req tmpl server_id = record (tmpl.container) {
    ports = filter_create_platforms tmpl.engines req.env tmpl.container.ports;
    volumes = elim tmpl.container.volumes [
      | none ↦ none
      | some volumes ↦ some (expand_volumes server_id volumes)
    ];
    environment = some (put_all (entries tmpl.container.environment) (entries tmpl.server));
  }

  after_network :
      CreationCore
      → CreateServerRequest f
      → Template f
      → String
      → Node
      → Result (Cause f) (Network f)
      → Outcome
  unfolding run_hook
  after_network core req tmpl server_id n (err cause) = (fail 503 cause, n)
  after_network core req tmpl server_id n (ok network) = run_hook core req tmpl server_id network n

  unfoldable pub allocate_network :
      CreationCore → CreateServerRequest f → Template f → String → Node → Outcome
  unfolding after_network prepared
  allocate_network core req tmpl server_id n =
      let (ipp', ps', allocated) =
        allocate_create_network f n.ipp n.port_pools server_id (prepared req tmpl server_id) in
      after_network core req tmpl server_id (record n { ipp = ipp'; port_pools = ps' }) allocated

  -- From the template on; a request without an ID gets one from the clock.
  unfoldable pub provision : CreationCore → CreateServerRequest f → Node → Outcome
  unfolding allocate_network
  provision core req n =
      let (nanos, w) = unix_nano n.world in
      elim (get core.templates req.template) [
        | none ↦ (fail 404 template_not_found, n)
        | some tmpl ↦
            if req.server_id == ""
            then allocate_network core req tmpl (req.template ++ "-" ++ decimal_int nanos)
                (record n { world = w })
            else allocate_network core req tmpl req.server_id n
      ]

  -- The answer to a runtime that is there already, or none to go on with the creation.
  unfoldable pub reconcile :
      CreationCore
      → CreateServerRequest f
      → String
      → String
      → DockerServer f
      → Node
      → Result CreationError (Option CreationResult) × Node
  unfolding failed_create_runtime_status response_server valid_recreate_token
  reconcile core req idempotency_key effect_id server n =
      if not (failed_create_runtime_status server.status)
      then (
        ok (some (record { server = response_server core server req.server_id; existing = true })),
        n,
      )
      else (elim core.recover_failed [
        | none ↦ (err (record { status = 409; cause = needs_fenced_recovery }), n)
        | some recover ↦
            let (failed, n') = recover server.id req.server_id n in
            if not (valid_recreate_token idempotency_key) || not (valid_recreate_token effect_id)
            then (err (record { status = 409; cause = needs_fenced_recovery }), n)
            else (elim failed [
              | some cause ↦ (err (record { status = 500; cause = retire_failed cause }), n')
              | none ↦ (ok none, n')
            ])
      ])

  after_lookup :
      CreationCore
      → CreateServerRequest f
      → String
      → String
      → Result (Cause f) (Option (DockerServer f))
      → Node
      → Result CreationError (Option CreationResult) × Node
  unfolding reconcile
  after_lookup core req key effect (err cause) n = (err (record { status = 500; cause = cause }), n)
  after_lookup core req key effect (ok none) n = (ok none, n)
  after_lookup core req key effect (ok (some server)) n = reconcile core req key effect server n

  unfoldable pub preflight :
      CreationCore
      → CreateServerRequest f
      → String
      → String
      → Node
      → Result CreationError (Option CreationResult) × Node
  unfolding after_lookup
  preflight core req key effect n =
      let (found, w) = existing_server f h req.server_id n.world in
      if req.server_id == ""
      then (ok none, n)
      else after_lookup core req key effect found (record n { world = w })

  go_on :
      CreationCore
      → CreateServerRequest f
      → Result CreationError (Option CreationResult)
      → Node
      → Outcome
  unfolding provision
  go_on core req (err e) n = (err e, n)
  go_on core req (ok (some result)) n = (ok result, n)
  go_on core req (ok none) n = provision core req n

  unfoldable pub create_fenced :
      CreationCore → CreateServerRequest f → String → String → Node → Outcome
  unfolding preflight go_on
  create_fenced core req key effect n =
      let (checked, n') = preflight core req key effect n in go_on core req checked n'

  unfoldable pub create : CreationCore → CreateServerRequest f → Node → Outcome
  unfolding create_fenced
  create core req n = create_fenced core req "" "" n
