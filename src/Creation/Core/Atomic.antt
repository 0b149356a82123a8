-- ===== src/Creation/Core/Atomic.antt =====
-- pulp-cell/creation_core.go: a create call that ends without a new runtime gives back all it took.
use bananagine.Prelude.{
  String, Bool, true, false, string_eq, ◌==◌, Option, none, ◌≡◌, ◌≢◌, refl, arith, eq_iff, inl, inr,
  Bool-cases, Option-cases, subst, sym, ◌∙◌, ℤ,
}
use bananagine.Map.{Map, get}
use bananagine.Service.{Result, ok, err}
use bananagine.Allocation.Ports.Pools.{PortPoolSet}
use bananagine.Allocation.Ports.PoolOwners.{IsKeyed}
use bananagine.Allocation.Ips.{IpPool}
use bananagine.Allocation.Ips.Address.{IsIp}
use bananagine.Allocation.Capacity
use bananagine.Allocation.Capacity.{Float64, IsExact, Tracker, CapacityError}
use bananagine.Allocation.Capacity.Accounts.{
  SameCapacity, try_allocate-release, try_allocate-refused,
}
use bananagine.Orchestration.{CreateServerRequest}
use bananagine.Creation.Template.{Template}
use bananagine.Creation.Host.{DockerServer, Cause, Host}
use bananagine.Creation.Lookup.{create_or_resolve}
use bananagine.Creation.Network.{Network, allocate_create_network, release_network}
use bananagine.Creation.Network.Undo.{
  SamePorts, SameIps, HoldsNoPort, Undone, allocate_create_network-Undone,
}
use bananagine.Creation.Core.{
  Node, CreationCore, CreationResult, CreationError, Outcome, settle, after_capacity, with_limits,
  with_environment, after_hook, after_network, reserve_capacity, run_hook, prepared,
  allocate_network, provision,
}

module _ (f : Float64) (h : Host f) where
  -- Every port, address and unit of capacity is held as it was.
  pub record SameHoldings (n n' : Node f h) : Type 0 where
    pub ports : SamePorts n.port_pools n'.port_pools
    pub ips : SameIps n.ipp n'.ipp
    pub capacity : SameCapacity f n.capacity n'.capacity

  -- The call returned a runtime that it created.
  abbrev pub created_new : Result (CreationError f h) (CreationResult f h) → Bool
  created_new (err e) = false
  created_new (ok r) = elim r.existing [ true ↦ false | false ↦ true ]

  -- Without a new runtime every holding is as it was.
  abbrev pub Unchanged : Node f h → Outcome f h → Type 0
  Unchanged n o = created_new o.0 ≡ false → SameHoldings n o.1

  -- A server of the ID holds nothing yet, and the pools are well formed.
  pub record IsReady (n : Node f h) (server_id : String) : Type 0 where
    pub start_ip : IsIp n.ipp.start
    pub end_ip : IsIp n.ipp.end
    pub keyed : IsKeyed n.port_pools
    pub no_port : HoldsNoPort n.port_pools server_id
    pub untracked : get n.capacity.containers server_id ≡ none

  -- Giving the network back restores the addresses and the ports.
  abbrev Undoes : Node f h → Option String → String → IpPool → PortPoolSet → Type 0
  Undoes n address server_id ipp ps =
      SameIps n.ipp (release_network address ipp ps server_id).0
      × SamePorts n.port_pools (release_network address ipp ps server_id).1

module _ (f : Float64) (x : IsExact f) (h : Host f) (core : CreationCore f h) where
  settle-Unchanged :
      (n n' : Node f h) (server_id : String) (network : Network f)
      (created : Result (Cause f) (DockerServer f × Bool))
      → Undoes f h n network.address server_id n'.ipp n'.port_pools
      → SameCapacity f n.capacity (Capacity.release f n'.capacity server_id)
      → Unchanged f h n (settle f h core server_id network n' created)
  unfolding settle
  settle-Unchanged n n' server_id network (err cause) (i, p) c q = record {
    ports = p;
    ips = i;
    capacity = c;
  }
  settle-Unchanged n n' server_id network (ok (server, true)) (i, p) c q = record {
    ports = p;
    ips = i;
    capacity = c;
  }
  settle-Unchanged n n' server_id network (ok (server, false)) (i, p) c q = cc

  after_capacity-Unchanged :
      (n n' : Node f h) (server_id : String) (network : Network f)
      (tried : Tracker f × Result (CapacityError f) (Unit {0}))
      → Undoes f h n network.address server_id n'.ipp n'.port_pools
      → ((e : CapacityError f) → tried.1 ≡ err e → SameCapacity f n.capacity tried.0)
      → (tried.1 ≡ ok tt → SameCapacity f n.capacity (Capacity.release f tried.0 server_id))
      → Unchanged f h n
          (after_capacity f h core server_id network (record n' { capacity = tried.0 }) tried.1)
  unfolding after_capacity
  after_capacity-Unchanged n n' server_id network (tracker, err e) (i, p) refused fits q = record {
    ports = p;
    ips = i;
    capacity = refused e refl;
  }
  after_capacity-Unchanged n n' server_id network (tracker, ok unit) u refused fits q =
      settle-Unchanged n (record n' { capacity = tracker; world = created.1 }) server_id network
        created.0 u (fits refl) q
    where
      created : Result (Cause f) (DockerServer f × Bool) × h.World
      created =
          create_or_resolve f h server_id (record (network.container) { name = server_id }) n'.world

  -- The capacity that an attempt takes is given back, and a refused attempt takes none.
  reserve_capacity-Unchanged :
      (n n' : Node f h) (req : CreateServerRequest f) (server_id : String) (network : Network f)
      → Undoes f h n network.address server_id n'.ipp n'.port_pools
      → n'.capacity ≡ n.capacity
      → get n.capacity.containers server_id ≡ none
      → Unchanged f h n (reserve_capacity f h core req server_id network n')
  unfolding reserve_capacity
  reserve_capacity-Unchanged n n' req server_id network u same fresh =
      after_capacity-Unchanged n n' server_id (with_limits f h req network)
        (Capacity.try_allocate f h.can_fit n'.capacity server_id cpu bytes) u
        (λ e o.
          subst (λ (t : Tracker f). SameCapacity f n.capacity t)
            (sym (try_allocate-refused f x h.can_fit n'.capacity server_id cpu bytes e o ∙ same))
            (record { cpu = refl; mem = refl; containers = λ id. refl }))
        (λ o.
          subst
            (λ (t : Tracker f). SameCapacity f t (
              Capacity.release f
                (Capacity.try_allocate f h.can_fit n'.capacity server_id cpu bytes).0 server_id))
            same (try_allocate-release f x h.can_fit n'.capacity server_id cpu bytes fresh' o))
    where
      cpu : f.Amount
      cpu = (with_limits f h req network).container.cpu_limit

      bytes : ℤ
      bytes = (with_limits f h req network).container.memory_limit

      fresh' : get n'.capacity.containers server_id ≡ none
      fresh' = subst (λ (t : Tracker f). get t.containers server_id ≡ none) (sym same) fresh

  after_hook-Unchanged :
      (n n' : Node f h) (req : CreateServerRequest f) (server_id : String) (network : Network f)
      (answer : Result String (Map String String))
      → Undoes f h n network.address server_id n'.ipp n'.port_pools
      → n'.capacity ≡ n.capacity
      → get n.capacity.containers server_id ≡ none
      → Unchanged f h n (after_hook f h core req server_id network n' answer)
  unfolding after_hook
  after_hook-Unchanged n n' req server_id network (err e) (i, p) same fresh q = record {
    ports = p;
    ips = i;
    capacity =
        subst (λ (t : Tracker f). SameCapacity f n.capacity t) (sym same)
          (record { cpu = refl; mem = refl; containers = λ id. refl });
  }
  after_hook-Unchanged n n' req server_id network (ok env) u same fresh q =
      reserve_capacity-Unchanged n n' req server_id (with_environment f h network env) u same fresh
        q

  run_hook-Unchanged :
      (n n' : Node f h) (req : CreateServerRequest f) (tmpl : Template f) (server_id : String)
      (network : Network f)
      → Undoes f h n network.address server_id n'.ipp n'.port_pools
      → n'.capacity ≡ n.capacity
      → get n.capacity.containers server_id ≡ none
      → Unchanged f h n (run_hook f h core req tmpl server_id network n')
  unfolding run_hook
  run_hook-Unchanged n n' req tmpl server_id network u same fresh =
      elim (Bool-cases (tmpl.pre_start == "")) [
        | inl no_hook ↦
            rw (no_hook, run_hook)
              (reserve_capacity-Unchanged n n' req server_id network u same fresh)
        | inr hooked ↦
            rw (hooked, run_hook)
              (after_hook-Unchanged n (record n' { world = answer.1 }) req server_id network
                answer.0 u same fresh)
      ]
    where
      answer : Result String (Map String String) × h.World
      answer = h.hook tmpl.pre_start n'.world

  after_network-Unchanged :
      (n : Node f h) (req : CreateServerRequest f) (tmpl : Template f) (server_id : String)
      (r : IpPool × PortPoolSet × Result (Cause f) (Network f))
      → Undone f n.ipp n.port_pools server_id r
      → get n.capacity.containers server_id ≡ none
      → Unchanged f h n
          (after_network f h core req tmpl server_id (record n { ipp = r.0; port_pools = r.1 }) r.2)
  unfolding after_network
  after_network-Unchanged n req tmpl server_id (ipp', ps', err cause) (i, p) fresh q = record {
    ports = p;
    ips = i;
    capacity = record { cpu = refl; mem = refl; containers = λ id. refl };
  }
  after_network-Unchanged n req tmpl server_id (ipp', ps', ok network) u fresh q =
      run_hook-Unchanged n (record n { ipp = ipp'; port_pools = ps' }) req tmpl server_id network u
        refl fresh q

  -- From the allocation of the network on: every failure and every lost race gives all back.
  pub allocate_network-Unchanged :
      (n : Node f h) (req : CreateServerRequest f) (tmpl : Template f) (server_id : String)
      → IsReady f h n server_id
      → Unchanged f h n (allocate_network f h core req tmpl server_id n)
  unfolding allocate_network
  allocate_network-Unchanged n req tmpl server_id r =
      after_network-Unchanged n req tmpl server_id
        (allocate_create_network f n.ipp n.port_pools server_id (prepared f h req tmpl server_id))
        (allocate_create_network-Undone f n.ipp n.port_pools server_id
          (prepared f h req tmpl server_id) r.start_ip r.end_ip r.keyed r.no_port)
        r.untracked

  same_holdings : (n : Node f h) → SameHoldings f h n n
  same_holdings n = record {
    ports = λ place port. refl;
    ips = λ ip. refl;
    capacity = record { cpu = refl; mem = refl; containers = λ id. refl };
  }

  -- With exact arithmetic, the creation from the template on for a given ID that holds nothing in
  -- well-formed pools, whatever docker, the hook and the capacity test answer: if it ends with an error, or with a runtime that another call created, every port, every
  -- address and all capacity are held as before the call.
  pub provision-SameHoldings :
      (n : Node f h) (req : CreateServerRequest f)
      → req.server_id ≢ ""
      → IsReady f h n req.server_id
      → created_new f h (provision f h core req n).0 ≡ false
      → SameHoldings f h n (provision f h core req n).1
  unfolding provision
  provision-SameHoldings n req named r =
      let e : (req.server_id == "") ≡ false = ground (arith, eq_iff req.server_id "") in
      elim (Option-cases (get core.templates req.template)) [
        | inl missing ↦ rw (missing, provision) (λ q. same_holdings n)
        | inr (tmpl, there) ↦
            rw (there, e, provision) (allocate_network-Unchanged n req tmpl req.server_id r)
      ]
