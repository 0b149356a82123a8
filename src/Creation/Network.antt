-- ===== src/Creation/Network.antt =====
-- pulp-cell/creation_core.go, `allocateCreateNetwork`: an address of the overlay network, or a port of
-- the host for each declared port.
pub mod Undo
use Prim.Native.String.{◌++◌}
use bananagine.Prelude.{
  String, ℤ, pos, string_eq, ◌==◌, Option, none, some, List, [], ◌∷◌, if◌then◌else◌,
}
use bananagine.Map.{Map, put}
use bananagine.Text.Decimal.{decimal_int}
use bananagine.Text.Strings.{to_upper}
use bananagine.Service.{Result, ok, err}
use bananagine.Allocation.Ports.{PortError}
use bananagine.Allocation.Ports.Pools
use bananagine.Allocation.Ports.Pools.{PortPoolSet}
use bananagine.Allocation.Ips
use bananagine.Allocation.Ips.{IpPool}
use bananagine.Allocation.Capacity.{Float64}
use bananagine.Resources.{entries}
use bananagine.Creation.Template.{PortSpec, ContainerSpec}
use bananagine.Creation.Host.{Cause, port_error, ip_error}

-- The ports of a container with the allocated numbers: the loop over container.Ports.
unfoldable pub allocate_ports :
    PortPoolSet → String → List PortSpec → PortPoolSet × Result PortError (List PortSpec)
allocate_ports ps server_id [] = (ps, ok [])
allocate_ports ps server_id (p ∷ rest) =
    let (ps1, first) = Pools.allocate ps p.range server_id in
    let (ps2, others) = allocate_ports ps1 server_id rest in
    elim first [
      | err e ↦ (ps1, err e)
      | ok port ↦ elim others [
        | err e ↦ (ps2, err e)
        | ok rest' ↦ (ps2, ok (record p { host = port; container = port } ∷ rest'))
      ]
    ]

-- PORT_<NAME> for each named port.
unfoldable pub put_ports : Map String String → List PortSpec → Map String String
unfolding to_upper decimal_int
put_ports env [] = env
put_ports env (p ∷ rest) =
    put_ports
      (if p.name == "" then env else put env ("PORT_" ++ to_upper p.name) (decimal_int p.container))
      rest

unfoldable pub network_environment :
    Map String String → String → List PortSpec → ℤ → String → Map String String
unfolding put_ports
network_environment env server_host ports port server_id =
    put (put (put_ports (put env "SERVER_HOST" server_host) ports) "SERVER_PORT" (decimal_int port))
      "SERVER_ID" server_id

-- releaseResources: the address, or the ports of the server.
unfoldable pub release_network :
    Option String → IpPool → PortPoolSet → String → IpPool × PortPoolSet
release_network none ipp ps server_id = (ipp, Pools.release_by_server ps server_id)
release_network (some ip) ipp ps server_id = (Ips.release ipp ip, ps)

module _ (f : Float64) where
  -- What was allocated: `address` is none in host mode, where Go returns "" for it.
  pub record Network : Type 0 where
    pub address : Option String
    pub port : ℤ
    pub container : ContainerSpec f

  first_port : List PortSpec → ℤ → ℤ
  first_port [] default = default
  first_port (p ∷ rest) default = p.container

  overlay : IpPool → String → ContainerSpec f → IpPool × Result (Cause f) Network
  unfolding first_port network_environment
  overlay ipp server_id container =
      let (ipp', allocated) = Ips.allocate ipp server_id in
      elim allocated [
        | err e ↦ (ipp', err (ip_error e))
        | ok ip ↦
            let port = first_port container.ports (pos 5520) in
            (
              ipp',
              ok (record {
                address = some ip;
                port = port;
                container = record container {
                  ip = ip;
                  environment = some (
                      network_environment (entries container.environment) ip container.ports port
                        server_id);
                };
              }),
            )
      ]

  host_network : ContainerSpec f → String → List PortSpec → ℤ → Network
  unfolding network_environment
  host_network container server_id ports port = record {
    address = none;
    port = port;
    container = record container {
      ports = ports;
      environment =
          some (network_environment (entries container.environment) "0.0.0.0" ports port server_id);
    };
  }

  -- A failure in the loop releases the ports of the server; one of the single port does not, as
  -- nothing was allocated before it.
  host_ports : PortPoolSet → String → ContainerSpec f → PortPoolSet × Result (Cause f) Network
  unfolding host_network
  host_ports ps server_id container =
      let (ps1, allocated) = allocate_ports ps server_id container.ports in
      let (ps2, single) = Pools.allocate ps1 "" server_id in
      elim allocated [
        | err e ↦ (Pools.release_by_server ps1 server_id, err (port_error e))
        | ok [] ↦ elim single [
          | err e ↦ (ps2, err (port_error e))
          | ok port ↦ (ps2, ok (host_network container server_id [] port))
        ]
        | ok (p ∷ rest) ↦ (ps1, ok (host_network container server_id (p ∷ rest) p.container))
      ]

  unfoldable pub allocate_create_network :
      IpPool
      → PortPoolSet
      → String
      → ContainerSpec f
      → IpPool × PortPoolSet × Result (Cause f) Network
  unfolding overlay host_ports
  allocate_create_network ipp ps server_id container =
      let (ipp', on_overlay) = overlay ipp server_id container in
      let (ps', on_host) = host_ports ps server_id container in
      if container.network == "" then (ipp, ps', on_host) else (ipp', ps, on_overlay)
