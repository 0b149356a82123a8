-- ===== src/Creation/Tests/Again.antt =====
-- A creation and its repetition on a host that creates one container.
use bananagine.Prelude.{
  Bool-cases, inl, inr, ap, sym, suc_ℤ, string_eq, int_eq, pos, true, false, ◌==◌, ◌≡◌, refl, arith,
  [], ◌∷◌, none, some, eq_iff, subst, if◌then◌else◌,
}
use bananagine.Map.{get, put}
use bananagine.Service.{ok, err, ok_injective}
use bananagine.Text.Strings.{trim_prefix}
use bananagine.Allocation.Ports
use bananagine.Allocation.Ports.{PortPool, first_free}
use bananagine.Allocation.Ports.Pools
use bananagine.Allocation.Ports.Pools.{PortPoolSet}
use bananagine.Allocation.Capacity.{try_allocate}
use bananagine.Allocation.Capacity.Whole.{whole}
use bananagine.Creation.Host.{DockerServer, Host, is_docker_not_found}
use bananagine.Creation.Lookup.{existing_server, create_or_resolve}
use bananagine.Creation.Network.{allocate_create_network, allocate_ports}
use bananagine.Resources.{apply}
use bananagine.Creation.Core.{
  Node, CreationCore, CreationResult, create_fenced, provision, response_server,
  failed_create_runtime_status,
}
use bananagine.Creation.Core.Again.{IsListed, ListsCreated, create_fenced_again}
use bananagine.Creation.Tests.{
  container_of, host, addresses, pools, node_with, paper, request, refused,
}

-- A host that creates the container mc-1 and lists it from then on.
abbrev docker : Host whole
docker = record host {
  create = λ made w.
      if made.name == "mc-1" then (ok (container_of "running"), "running") else (err refused, w);
}

lists_mc_1 : IsListed whole docker "mc-1" (container_of "running") "running"
unfolding failed_create_runtime_status trim_prefix
lists_mc_1 = record {
  found = container_of "running";
  listed = refl;
  named = refl;
  same = refl;
  alive = refl;
}

docker-ListsCreated : ListsCreated whole docker
docker-ListsCreated made server w w' = elim (Bool-cases (made.name == "mc-1")) [
  | inr other ↦ rw other (λ q. let bad = ap (λ p. p.0) q in absurd cc)
  | inl asked ↦ rw asked (λ q.
      let name = (eq_iff made.name "mc-1").0 asked in
      let same = ok_injective (ap (λ p. p.0) q) in
      let after = ap (λ p. p.1) q in
      subst (λ id. IsListed whole docker id server w') (sym name)
        (subst (λ (s : DockerServer whole). IsListed whole docker "mc-1" s w') same
          (subst (λ t. IsListed whole docker "mc-1" (container_of "running") t) after lists_mc_1)))
]

abbrev docker_core : CreationCore whole docker
docker_core = record {
  templates = ("paper", paper) ∷ [];
  external_host = "";
  runtime_node_id = "node-a";
  recover_failed = none;
}

abbrev empty_node : Node whole docker
empty_node = record {
  capacity = (node_with "").capacity;
  ipp = addresses;
  port_pools = pools;
  world = "";
}

abbrev created : CreationResult whole docker
created = record {
  server = record {
    id = "4f2a";
    name = "mc-1";
    node_id = "node-a";
    world_name = "mc-1";
    status = "running";
    ip = "172.18.0.2";
    ports = some (("25566", pos 25566) ∷ []);
    cpu_limit = 2;
    memory_limit = pos 4;
  };
  existing = false;
}

creates : (create_fenced whole docker docker_core request "" "" empty_node).0 ≡ ok created
unfolding create_fenced provision get allocate_create_network allocate_ports Pools.allocate
    Ports.allocate first_free suc_ℤ try_allocate apply create_or_resolve existing_server
    response_server is_docker_not_found put
creates = refl

create_fenced_again_example :
    (again : CreationResult whole docker) × (again.existing ≡ true)
    × (again.server.id ≡ "4f2a")
    × (create_fenced whole docker docker_core request "k-1" "e-1"
          (create_fenced whole docker docker_core request "" "" empty_node).1
        ≡ (ok again, (create_fenced whole docker docker_core request "" "" empty_node).1))
create_fenced_again_example =
    create_fenced_again whole docker docker-ListsCreated docker_core request "" "" "k-1" "e-1"
      empty_node created (ground (arith, eq_iff request.server_id "")) creates refl
