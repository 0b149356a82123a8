-- ===== src/Creation/Network/Undo.antt =====
-- pulp-cell/creation_core.go: what `allocateCreateNetwork` takes, and that it can be given back.
use bananagine.Prelude.{
  String, ℤ, int_eq, string_eq, ◌==◌, eq_iff, ◌&&◌, Option, none, some, List, [], ◌∷◌, ◌≡◌, ◌≢◌,
  refl, arith, inl, inr, ◌⊎◌, Bool-cases, ◌∙◌, sym, ap, subst, int_beq_iff,
}
use bananagine.Map.Values.{unless}
use bananagine.Service.{Result, ok, err, Result-cases}
use bananagine.Allocation.Capacity.{Float64}
use bananagine.Allocation.Ports.{PortError}
use bananagine.Allocation.Ports.Pools
use bananagine.Allocation.Ports.Pools.{PortPoolSet}
use bananagine.Allocation.Ports.PoolOwners.{Place, held, same, IsKeyed, held-release_by_server}
use bananagine.Allocation.Ports.PoolAllocation
use bananagine.Allocation.Ports.PoolAllocation.{place_of, same-eq, allocate-IsKeyed}
use bananagine.Allocation.Ips
use bananagine.Allocation.Ips.{IpPool, IpError}
use bananagine.Allocation.Ips.Address.{IsIp}
use bananagine.Allocation.Ips.Search
use bananagine.Allocation.Ips.Owners.{holder, holder-release}
use bananagine.Creation.Host.{Cause}
use bananagine.Creation.Template.{PortSpec, ContainerSpec}
use bananagine.Creation.Network.{
  Network, allocate_ports, overlay, host_ports, allocate_create_network, release_network,
}

-- Every port has the holder that it had.
abbrev pub SamePorts : PortPoolSet → PortPoolSet → Type 0
SamePorts ps ps' = (place : Place) (port : ℤ) → held ps' place port ≡ held ps place port

abbrev pub SameIps : IpPool → IpPool → Type 0
SameIps p p' = (ip : String) → holder p' ip ≡ holder p ip

-- The server holds no port.
abbrev pub HoldsNoPort : PortPoolSet → String → Type 0
HoldsNoPort ps server_id = (place : Place) (port : ℤ) → held ps place port ≢ some server_id

-- Some free ports went to the server, and nothing else changed.
abbrev pub Grown : PortPoolSet → PortPoolSet → String → Type 0
Grown ps ps' server_id =
    (place : Place) (port : ℤ)
    → (held ps' place port ≡ held ps place port)
      ⊎ ((held ps' place port ≡ some server_id) × (held ps place port ≡ none))

Grown-refl : (ps : PortPoolSet) (server_id : String) → Grown ps ps server_id
Grown-refl ps server_id place port = inl refl

Grown-trans :
    (ps1 ps2 ps3 : PortPoolSet) (server_id : String)
    → Grown ps1 ps2 server_id
    → Grown ps2 ps3 server_id
    → Grown ps1 ps3 server_id
Grown-trans ps1 ps2 ps3 server_id g h place port = ground (arith, g place port, h place port)

unless_grown :
    (before after : Option String) (server_id : String)
    → before ≢ some server_id
    → (after ≡ before) ⊎ ((after ≡ some server_id) × (before ≡ none))
    → unless (λ id. id == server_id) after ≡ before
unless_grown none none server_id n g = refl
unless_grown none (some id) server_id n g = ground (arith, eq_iff id server_id)
unless_grown (some id) none server_id n g = ground arith
unless_grown (some id) (some id') server_id n g = ground (arith, eq_iff id' server_id)

-- A release undoes a growth of a server that held no port.
release-Grown :
    (ps ps' : PortPoolSet) (server_id : String)
    → IsKeyed ps'
    → HoldsNoPort ps server_id
    → Grown ps ps' server_id
    → SamePorts ps (Pools.release_by_server ps' server_id)
release-Grown ps ps' server_id k n g place port =
    held-release_by_server ps' server_id place port k
    ∙ unless_grown (held ps place port) (held ps' place port) server_id (n place port)
        (g place port)

Grown-of_Allocates :
    (ps : PortPoolSet) (at : Place) (server_id : String) (r : PortPoolSet × Result PortError ℤ)
    → PoolAllocation.Allocates ps at server_id r
    → Grown ps r.0 server_id
Grown-of_Allocates ps at server_id (ps', err e) a place port = inl (a place port)
Grown-of_Allocates ps at server_id (ps', ok taken) a place port =
    elim (Bool-cases (same at place && taken == port)) [
      | inr other ↦ inl (ground (arith, a.1 place port))
      | inl this ↦
          let at_place : at ≡ place = same-eq at place (ground arith) in
          let at_port : taken ≡ port = ground (arith, int_beq_iff taken port) in
          inr (
            ground (arith, a.1 place port),
            subst (λ w. held ps w port ≡ none) at_place
                (subst (λ q. held ps at q ≡ none) at_port a.0),
          )
    ]

allocate-Grown :
    (ps : PortPoolSet) (range server_id : String)
    → Grown ps (Pools.allocate ps range server_id).0 server_id
allocate-Grown ps range server_id =
    Grown-of_Allocates ps (place_of range) server_id (Pools.allocate ps range server_id)
      (PoolAllocation.allocate-Allocates ps range server_id)

-- The loop over the declared ports, whatever it returns: only free ports went to the server.
allocate_ports-Grown :
    (ps : PortPoolSet) (server_id : String) (specs : List PortSpec)
    → IsKeyed ps
    → Grown ps (allocate_ports ps server_id specs).0 server_id
      × IsKeyed (allocate_ports ps server_id specs).0
unfolding allocate_ports
allocate_ports-Grown ps server_id [] k = (Grown-refl ps server_id, k)
allocate_ports-Grown ps server_id (p ∷ rest) k =
    let first = Pools.allocate ps p.range server_id in
    let k1 = allocate-IsKeyed ps p.range server_id k in
    let g1 = allocate-Grown ps p.range server_id in
    let more = allocate_ports-Grown first.0 server_id rest k1 in
    let both =
      Grown-trans ps first.0 (allocate_ports first.0 server_id rest).0 server_id g1 more.0 in
    elim (Result-cases first.1) [
      | inr (e, f) ↦ rw (f, allocate_ports) (g1, k1)
      | inl (port, f) ↦ elim (Result-cases (allocate_ports first.0 server_id rest).1) [
        | inr (e, o) ↦ rw (f, o, allocate_ports) (both, more.1)
        | inl (specs', o) ↦ rw (f, o, allocate_ports) (both, more.1)
      ]
    ]

allocate_ports-nil :
    (ps : PortPoolSet) (server_id : String) (specs : List PortSpec)
    → (allocate_ports ps server_id specs).1 ≡ ok []
    → (allocate_ports ps server_id specs).0 ≡ ps
unfolding allocate_ports
allocate_ports-nil ps server_id [] h = refl
allocate_ports-nil ps server_id (p ∷ rest) h = absurd (ground arith)

allocate-same_of_err :
    (ps : PortPoolSet) (at : Place) (server_id : String) (r : PortPoolSet × Result PortError ℤ)
    (e : PortError)
    → PoolAllocation.Allocates ps at server_id r
    → r.1 ≡ err e
    → SamePorts ps r.0
allocate-same_of_err ps at server_id (ps', err e') e a h place port = a place port
allocate-same_of_err ps at server_id (ps', ok port') e a h place port = absurd (ground arith)

kept_of_err :
    (p : IpPool) (server_id : String) (r : IpPool × Result IpError String) (e : IpError)
    → Search.TakesAddress p server_id r
    → r.1 ≡ err e
    → SameIps p r.0
kept_of_err p server_id (p', err e') e (_, same_pool) h ip = ap (λ q. holder q ip) same_pool
kept_of_err p server_id (p', ok ip') e a h ip = absurd (ground arith)

given_back :
    (p : IpPool) (server_id : String) (r : IpPool × Result IpError String) (ip : String)
    → Search.TakesAddress p server_id r
    → r.1 ≡ ok ip
    → SameIps p (Ips.release r.0 ip)
given_back p server_id (p', err e) ip a h j = absurd (ground arith)
given_back p server_id (p', ok taken) ip ((n, le, e, free, _), _, _, puts) h j =
    let was_free : holder p taken ≡ none = subst (λ x. holder p x ≡ none) (sym e) free in
    let eq : taken ≡ ip = ground arith in
    ground (arith, holder-release p' ip j, puts j, eq_iff ip j, eq_iff taken j, was_free, eq)

module _ (f : Float64) where
  abbrev UndonePorts : PortPoolSet → String → PortPoolSet × Result (Cause f) (Network f) → Type 0
  UndonePorts ps server_id (ps', err e) = SamePorts ps ps'
  UndonePorts ps server_id (ps', ok network) =
      (network.address ≡ none) × SamePorts ps (Pools.release_by_server ps' server_id)

  host_ports-Undone :
      (ps : PortPoolSet) (server_id : String) (container : ContainerSpec f)
      → IsKeyed ps
      → HoldsNoPort ps server_id
      → UndonePorts ps server_id (host_ports f ps server_id container)
  unfolding host_ports
  host_ports-Undone ps server_id container k n =
      let looped = allocate_ports ps server_id container.ports in
      let (grown, k1) = allocate_ports-Grown ps server_id container.ports k in
      let single = Pools.allocate looped.0 "" server_id in
      let undone = release-Grown ps looped.0 server_id k1 n grown in
      elim (Result-cases looped.1) [
        | inr (e, o) ↦ rw (o, host_ports) undone
        | inl ([], o) ↦ elim (Result-cases single.1) [
          | inl (port, q) ↦
              rw (o, q, host_ports)
                (
                  refl,
                  release-Grown ps single.0 server_id (allocate-IsKeyed looped.0 "" server_id k1) n
                      (Grown-trans ps looped.0 single.0 server_id grown
                        (allocate-Grown looped.0 "" server_id)),
                )
          | inr (e, q) ↦
              rw (o, q, host_ports)
                (subst (λ start. SamePorts start single.0)
                  (allocate_ports-nil ps server_id container.ports o)
                  (allocate-same_of_err looped.0 (place_of "") server_id single e
                    (PoolAllocation.allocate-Allocates looped.0 "" server_id) q))
        ]
        | inl (p ∷ rest, o) ↦ rw (o, host_ports) (refl, undone)
      ]

  abbrev UndoneIps : IpPool → IpPool × Result (Cause f) (Network f) → Type 0
  UndoneIps ipp (ipp', err e) = SameIps ipp ipp'
  UndoneIps ipp (ipp', ok network) =
      (ip : String) × (network.address ≡ some ip) × SameIps ipp (Ips.release ipp' ip)

  overlay-Undone :
      (ipp : IpPool) (server_id : String) (container : ContainerSpec f)
      → IsIp ipp.start
      → IsIp ipp.end
      → UndoneIps ipp (overlay f ipp server_id container)
  unfolding overlay
  overlay-Undone ipp server_id container u v =
      let r = Ips.allocate ipp server_id in
      let a = Search.allocate-TakesAddress ipp server_id u v in
      elim (Result-cases r.1) [
        | inr (e, o) ↦ rw (o, overlay) (kept_of_err ipp server_id r e a o)
        | inl (ip, o) ↦ rw (o, overlay) (ip, refl, given_back ipp server_id r ip a o)
      ]

  -- A network that was allocated and is released again leaves every holding as it was; a failure
  -- leaves them so at once.
  abbrev pub Undone :
      IpPool → PortPoolSet → String → IpPool × PortPoolSet × Result (Cause f) (Network f) → Type 0
  Undone ipp ps server_id (ipp', ps', err e) = SameIps ipp ipp' × SamePorts ps ps'
  Undone ipp ps server_id (ipp', ps', ok network) =
      let released = release_network network.address ipp' ps' server_id in
      SameIps ipp released.0 × SamePorts ps released.1

  from_host :
      (ipp : IpPool) (ps : PortPoolSet) (server_id : String)
      (r : PortPoolSet × Result (Cause f) (Network f))
      → UndonePorts ps server_id r
      → Undone ipp ps server_id (ipp, r.0, r.1)
  unfolding release_network
  from_host ipp ps server_id (ps', err e) u = (λ ip. refl, u)
  from_host ipp ps server_id (ps', ok network) (none_there, u) =
      rw (none_there, release_network) (λ ip. refl, u)

  from_overlay :
      (ipp : IpPool) (ps : PortPoolSet) (server_id : String)
      (r : IpPool × Result (Cause f) (Network f))
      → UndoneIps ipp r
      → Undone ipp ps server_id (r.0, ps, r.1)
  unfolding release_network
  from_overlay ipp ps server_id (ipp', err e) u = (u, λ place port. refl)
  from_overlay ipp ps server_id (ipp', ok network) (ip, there, u) =
      rw (there, release_network) (u, λ place port. refl)

  -- Where the server holds no port and the pools are well formed, a network that the creation
  -- allocates and then releases leaves every port and every address held as before, whether the
  -- container has a network of its own or host ports; a failed allocation leaves them so at once.
  pub allocate_create_network-Undone :
      (ipp : IpPool) (ps : PortPoolSet) (server_id : String) (container : ContainerSpec f)
      → IsIp ipp.start
      → IsIp ipp.end
      → IsKeyed ps
      → HoldsNoPort ps server_id
      → Undone ipp ps server_id (allocate_create_network f ipp ps server_id container)
  unfolding allocate_create_network
  allocate_create_network-Undone ipp ps server_id container u v k n =
      elim (Bool-cases (container.network == "")) [
        | inl host ↦
            rw (host, allocate_create_network)
              (from_host ipp ps server_id (host_ports f ps server_id container)
                (host_ports-Undone ps server_id container k n))
        | inr over ↦
            rw (over, allocate_create_network)
              (from_overlay ipp ps server_id (overlay f ipp server_id container)
                (overlay-Undone ipp server_id container u v))
      ]
