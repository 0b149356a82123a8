-- ===== src/Lib.antt =====
-- Bananagine runs game servers on a node: it answers create, retire and recreate calls, gives each
-- server ports or an address and a share of the node's capacity, and keeps a directory of the running
-- servers and their matches. This library models its stateful cores; a file opens with the source
-- that it is about.
--
-- Parts, and how they interact:
-- - Registry: `registry/`. `State` is the Go struct without its lock; each method returns the new
--   state beside its result (`lookup` is `Get`), and a call is one atomic step.
-- - Allocation: `pulp-cell/ports.go` (Ports, Ports/Pools), `pulp-cell/ips.go` (Ips) and
--   `pulp-cell/capacity.go` (Capacity). Each operation has the source's name in snake_case.
-- - Resources: `pulp-cell/resources/resources.go`, the limits and the heap of a new server.
-- - Orchestration: `orchestration/contracts.go`, the records that callers exchange.
-- - Creation: `pulp-cell/creation_core.go` and `pulp-cell/idempotent_create.go` (Template, Host,
--   Lookup, Network, Core), `pulp-cell/retirement_core.go` (Retire) and `pulp-cell/recreate_core.go`
--   (Recreate). A `Node` holds the three trackers and the world beyond the cell. `create_fenced` is
--   the composition of its stages: lookup of the ID, template, network, hook, limits, capacity,
--   container; the stages call the operations of Allocation and Resources.
-- - GameWorker: `gameworker/`, the receipts of asynchronous HTTP jobs, and TemplateCatalog:
--   `templatecatalog/`, the catalog of game templates. `lookup` is `Get` there.
-- - FleetExec: `pulp-cell/exec_idempotency_routes.go` and `pulp-cell/execallow/execallow.go`, commands
--   that run at most once for an idempotency key.
-- - Fleet: `pulp-cell/fleet_lifecycle_routes.go` (Lifecycle, Access) and
--   `pulp-cell/fleet_world_transfer_routes.go` (Transfer). Host has the receipts and the stages that the
--   three handlers repeat: `admitted` the checks of the call, `keyed` and `replay_or` the receipt,
--   `finish` the answer; the work between them is `got`, `owned_answered` and `execute` of each route.
--   Observation has the parsers of `pulp-cell/fleet_observation_routes.go`.
-- - HostAgent: `hostagent/` (Config is NewWithTransport, Client the requests, Client/Step the tick,
--   Executable the specification) and `pulp-cell/host_agent_runtime.go` (Runtime, HostEngine). A client
--   runs the assignments that Evolution gives to its host on an `Engine` and settles each by a
--   receipt; HostEngine is the cell's engine, on Creation and Fleet.
-- - Map, Service, Text, Prelude: Go's maps as association lists, the error values, what is used of
--   strings, unicode, strconv and fmt, and the integers and tests over the native naturals.
--
-- A map is an association list, and a range over it goes in the list's order; Go's order is random.
-- A nil slice or map is `none` where the source tells it from an empty one. Texts are lists of code
-- points. An `int` is an unbounded integer, except in the conversion of megabytes to bytes, which
-- wraps around at 64 bits.
--
-- Loops over a list or a map are structural. The search for a free port runs on as many rounds as the
-- range has ports; the search for an address on as many as there are addresses from the start to the
-- end, going round after 255.255.255.255. Both are enough for the loop to end by itself.
--
-- Parameters, since their code is not in the repository: docker, the pre-start hook and the clock
-- (`Host`, operations on a world of their own, with `ListsCreated` as the hypothesis that docker lists
-- what it created), the capacity test and the arithmetic of float64 (`Float64`, with `IsExact` as the
-- hypothesis that no operation rounds), the digest of a recreation (none where its JSON cannot be
-- made), the host's workers and the fingerprint of a job (`Submitter`, `Poller`, `Fingerprint`), the
-- validity and encoding of JSON (`Json`), and the files, JSON and docker of the exec route (`ExecHost`,
-- with `IsDurable` as the hypothesis that a file is read as it was written).
--
-- Likewise the files, JSON, docker and the clock of the fleet's routes (`FleetHost`, with an `IsDurable`
-- of its own), url.Parse, the JSON of an announcement (with the hypothesis that the JSON of a text
-- without control characters holds none either), and the clock, transport and JSON of a host agent
-- (`AgentHost`). The loop of a tick has the configured number of actions as its fuel, which is the
-- loop's own bound.
--
-- Not modelled: locking, HTTP routes, configuration, wire encodings, template files, the fleet's
-- observation handlers, the legacy exec routes and the archive owner.
mod Prelude
pub mod Map
pub mod Service
pub mod Text
pub mod Registry
pub mod Allocation
pub mod Orchestration
pub mod Resources
pub mod Creation
pub mod GameWorker
pub mod HostAgent
pub mod TemplateCatalog
pub mod FleetExec
pub mod Fleet
