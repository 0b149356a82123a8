-- ===== src/Creation/Core/Again.antt =====
-- pulp-cell/creation_core.go: the repetition of a creation that was answered with a new server.
use bananagine.Prelude.{
  String, Bool, true, false, string_eq, ◌==◌, some, ◌≡◌, ◌≢◌, refl, ap, sym, ◌∙◌, arith, eq_iff,
  inl, inr, Bool-cases, Option-cases,
}
use bananagine.Map.{Map, get}
use bananagine.Text.Strings.{trim_prefix}
use bananagine.Service.{Result, ok, err, ok_injective}
use bananagine.Allocation.Ports.Pools.{PortPoolSet}
use bananagine.Allocation.Ips.{IpPool}
use bananagine.Allocation.Capacity
use bananagine.Allocation.Capacity.{Float64, Tracker, CapacityError}
use bananagine.Orchestration.{CreateServerRequest}
use bananagine.Creation.Template.{ContainerSpec, Template}
use bananagine.Creation.Host.{DockerServer, Cause, Host}
use bananagine.Creation.Lookup.{create_or_resolve}
use bananagine.Creation.Lookup.Created.{existing_server-listed, create_or_resolve-new}
use bananagine.Creation.Network.{Network, allocate_create_network}
use bananagine.Creation.Core.{
  Node, CreationCore, CreationResult, Outcome, failed_create_runtime_status, response_server,
  settle, create_container, after_capacity, with_limits, reserve_capacity, with_environment,
  after_hook, run_hook, prepared, after_network, allocate_network, provision, create_fenced,
}
use bananagine.Creation.Core.Retry.{Reconciled, create_fenced-Reconciled}

module _ (f : Float64) (h : Host f) where
  -- Docker lists the container under the name, as one that has not stopped, and the list does not
  -- change it.
  pub record IsListed (id : String) (server : DockerServer f) (w : h.World) : Type 0 where
    pub found : DockerServer f
    pub listed : h.get id w ≡ (ok (some found), w)
    pub named : trim_prefix found.name "/" ≡ id
    pub same : found.id ≡ server.id
    pub alive : failed_create_runtime_status found.status ≡ false

  -- A container that docker created is listed under the name that was asked for.
  abbrev pub ListsCreated : Type 0
  ListsCreated =
      (spec : ContainerSpec f) (server : DockerServer f) (w w' : h.World)
      → h.create spec w ≡ (ok server, w')
      → IsListed spec.name server w'

module _ (f : Float64) (h : Host f) (lists : ListsCreated f h) (core : CreationCore f h) where
  -- A new server of the outcome is listed in its node.
  abbrev Made : String → Outcome f h → Type 0
  Made id out =
      (r : CreationResult f h)
      → out.0 ≡ ok r
      → r.existing ≡ false
      → (server : DockerServer f) × (r.server.id ≡ server.id) × IsListed f h id server out.1.world

  settle-Made :
      (id : String) (network : Network f) (n : Node f h)
      (created : Result (Cause f) (DockerServer f × Bool))
      → ((server : DockerServer f) → created ≡ ok (server, false) → IsListed f h id server n.world)
      → Made id (settle f h core id network n created)
  unfolding settle response_server
  settle-Made id network n (err cause) known r q new = absurd cc
  settle-Made id network n (ok (server, true)) known r q new =
      let clash : true ≡ false = ap (λ x. x.existing) (ok_injective q) ∙ new in absurd cc
  settle-Made id network n (ok (server, false)) known r q new =
      (server, sym (ap (λ x. x.server.id) (ok_injective q)), known server refl)

  create_container-Made :
      (id : String) (network : Network f) (n : Node f h)
      → Made id (create_container f h core id network n)
  unfolding create_container
  create_container-Made id network n =
      settle-Made id network (record n { world = created.1 }) created.0
        (λ server q.
          lists spec server n.world created.1 (create_or_resolve-new f h id spec n.world server q))
    where
      spec : ContainerSpec f
      spec = record (network.container) { name = id }

      created : Result (Cause f) (DockerServer f × Bool) × h.World
      created = create_or_resolve f h id spec n.world

  after_capacity-Made :
      (id : String) (network : Network f) (n : Node f h)
      (fits : Result (CapacityError f) (Unit {0}))
      → Made id (after_capacity f h core id network n fits)
  unfolding after_capacity
  after_capacity-Made id network n (err e) r q = absurd cc
  after_capacity-Made id network n (ok _) r q = create_container-Made id network n r q

  reserve_capacity-Made :
      (req : CreateServerRequest f) (id : String) (network : Network f) (n : Node f h)
      → Made id (reserve_capacity f h core req id network n)
  unfolding reserve_capacity
  reserve_capacity-Made req id network n =
      after_capacity-Made id limits (record n { capacity = tried.0 }) tried.1
    where
      limits : Network f
      limits = with_limits f h req network

      tried : Tracker f × Result (CapacityError f) (Unit {0})
      tried =
          Capacity.try_allocate f h.can_fit n.capacity id limits.container.cpu_limit
            limits.container.memory_limit

  after_hook-Made :
      (req : CreateServerRequest f) (id : String) (network : Network f) (n : Node f h)
      (answer : Result String (Map String String))
      → Made id (after_hook f h core req id network n answer)
  unfolding after_hook
  after_hook-Made req id network n (err e) r q = absurd cc
  after_hook-Made req id network n (ok env) r q =
      reserve_capacity-Made req id (with_environment f h network env) n r q

  run_hook-Made :
      (req : CreateServerRequest f) (tmpl : Template f) (id : String) (network : Network f)
      (n : Node f h)
      → Made id (run_hook f h core req tmpl id network n)
  unfolding run_hook
  run_hook-Made req tmpl id network n = elim (Bool-cases (tmpl.pre_start == "")) [
    | inl no_hook ↦ rw (no_hook, run_hook) (reserve_capacity-Made req id network n)
    | inr hooked ↦
        rw (hooked, run_hook)
          (after_hook-Made req id network (record n { world = (h.hook tmpl.pre_start n.world).1 })
            (h.hook tmpl.pre_start n.world).0)
  ]

  after_network-Made :
      (req : CreateServerRequest f) (tmpl : Template f) (id : String) (n : Node f h)
      (network : Result (Cause f) (Network f))
      → Made id (after_network f h core req tmpl id n network)
  unfolding after_network
  after_network-Made req tmpl id n (err cause) r q = absurd cc
  after_network-Made req tmpl id n (ok network) r q = run_hook-Made req tmpl id network n r q

  allocate_network-Made :
      (req : CreateServerRequest f) (tmpl : Template f) (id : String) (n : Node f h)
      → Made id (allocate_network f h core req tmpl id n)
  unfolding allocate_network
  allocate_network-Made req tmpl id n =
      after_network-Made req tmpl id (record n { ipp = made.0; port_pools = made.1 }) made.2
    where
      made : IpPool × PortPoolSet × Result (Cause f) (Network f)
      made = allocate_create_network f n.ipp n.port_pools id (prepared f h req tmpl id)

  provision-Made :
      (req : CreateServerRequest f) (n : Node f h)
      → req.server_id ≢ ""
      → Made req.server_id (provision f h core req n)
  unfolding provision
  provision-Made req n named = elim (Option-cases (get core.templates req.template)) [
    | inl missing ↦ rw (missing, provision) (λ r q. absurd cc)
    | inr (tmpl, known) ↦
        rw (known, given, provision) (allocate_network-Made req tmpl req.server_id n)
  ]
    where
      given : (req.server_id == "") ≡ false
      given = ground (arith, eq_iff req.server_id "")

  Reconciled-Made :
      (req : CreateServerRequest f) (key effect : String) (n : Node f h) (out : Outcome f h)
      → req.server_id ≢ ""
      → Reconciled f h core req key effect n out
      → Made req.server_id out
  Reconciled-Made req key effect n _ named (Reconciled.provisions n' may) r q new =
      provision-Made req n' named r q new
  Reconciled-Made req key effect n _ named (Reconciled.answers server w _ _ _) r q new =
      let clash : true ≡ false = ap (λ x. x.existing) (ok_injective q) ∙ new in absurd cc
  Reconciled-Made req key effect n _ named (Reconciled.lookup_failed cause w _ _) r q new =
      absurd cc
  Reconciled-Made req key effect n _ named (Reconciled.unfenced server w _ _ _ _) r q new =
      absurd cc
  Reconciled-Made req key effect n _ named (Reconciled.unretired server w _ cause n' _ _ _ _ _ _) r
        q new =
      absurd cc

  answered :
      (req : CreateServerRequest f) (key effect : String) (n : Node f h) (server : DockerServer f)
      → req.server_id ≢ ""
      → IsListed f h req.server_id server n.world
      → (again : CreationResult f h) × (again.existing ≡ true)
        × (again.server.id ≡ server.id)
        × (create_fenced f h core req key effect n ≡ (ok again, n))
  unfolding create_fenced response_server
  answered req key effect n server named l =
      let given : (req.server_id == "") ≡ false = ground (arith, eq_iff req.server_id "") in
      let there = existing_server-listed f h req.server_id n.world l.found l.listed l.named in
      (
        record { server = response_server f h core l.found req.server_id; existing = true },
        refl,
        l.same,
        rw (given, there, create_fenced, l.alive) refl,
      )

  -- If docker lists every container it created, under the name asked for and as one that has not
  -- stopped, a creation for a given ID that was answered with a new server is idempotent: the same
  -- request, also with other identities, is answered with the container of that server as an existing
  -- one, and allocates, releases and creates nothing.
  pub create_fenced_again :
      (req : CreateServerRequest f) (key effect key' effect' : String) (n : Node f h)
      (r : CreationResult f h)
      → req.server_id ≢ ""
      → (create_fenced f h core req key effect n).0 ≡ ok r
      → r.existing ≡ false
      → (again : CreationResult f h) × (again.existing ≡ true)
        × (again.server.id ≡ r.server.id)
        × (create_fenced f h core req key' effect' (create_fenced f h core req key effect n).1
            ≡ (ok again, (create_fenced f h core req key effect n).1))
  create_fenced_again req key effect key' effect' n r named q new =
      let out = create_fenced f h core req key effect n in
      let (server, same, listed) =
        Reconciled-Made req key effect n out named
          (create_fenced-Reconciled f h core req key effect n) r q new in
      let (again, existing, as_listed, answer) =
        answered req key' effect' out.1 server named listed in
      (again, existing, as_listed ∙ sym same, answer)
