-- ===== src/Creation/Tests.antt =====
-- Runs of pulp-cell/creation_core.go, retirement_core.go and recreate_core.go on a host that knows at
-- most one container and refuses to create another.
mod Again
use mathlib.Core.Option
use bananagine.Prelude.{
  suc_ℤ, String, string_eq, int_eq, pos, true, false, not, ◌==◌, ◌≡◌, refl, arith, [], ◌∷◌, none,
  some, eq_iff, subst, leb, ◌+◌, ◌&&◌, if◌then◌else◌,
}
use bananagine.Map.{get, Unique}
use bananagine.Service.{ok, err}
use bananagine.Text.Strings.{trim_prefix, to_lower}
use bananagine.Text.Identity.{valid_recreate_token, valid_fleet_identity}
use bananagine.Allocation.Ports
use bananagine.Allocation.Ports.{PortPool, first_free}
use bananagine.Allocation.Ports.Pools
use bananagine.Allocation.Ports.Pools.{PortPoolSet}
use bananagine.Allocation.Ports.PoolOwners.{Place, fallback, ranged, pool_at, IsKeyed}
use bananagine.Allocation.Ips.{IpPool}
use bananagine.Allocation.Ips.Address.{Ip, IsIp}
use bananagine.Allocation.Capacity.{CanFit, try_allocate}
use bananagine.Allocation.Capacity.Whole.{whole, whole-IsExact}
use bananagine.Orchestration.{CreateServerRequest, RecreateServerRequestV1, RecreateServerReceiptV1}
use bananagine.Creation.Template.{ContainerSpec, Template}
use bananagine.Creation.Host.{DockerError, DockerServer, Host, is_docker_name_conflict}
use bananagine.Creation.Lookup.{existing_server, create_or_resolve}
use bananagine.Creation.Network.{allocate_create_network, allocate_ports}
use bananagine.Resources.{apply}
use bananagine.Creation.Network.Undo.{HoldsNoPort, Undone, allocate_create_network-Undone}
use bananagine.Creation.Core.{Node, CreationCore, create, create_fenced, provision, response_server}
use bananagine.Creation.Core.Retry.{Reconciled, create_fenced-Reconciled}
use bananagine.Creation.Core.Atomic.{IsReady, SameHoldings, provision-SameHoldings}
use bananagine.Creation.Retire.{retire_server, Retired, retire_server-Retired}
use bananagine.Creation.Recreate.{Digest, Recreator, recreate, refusal}
use bananagine.Creation.Recreate.Receipts.{recreate_again}

abbrev gone : DockerError
gone = record { is_not_found = true; message = "no such container" }

abbrev refused : DockerError
refused = record { is_not_found = false; message = "no space left on device" }

abbrev pub container_of : String → DockerServer whole
container_of status = record {
  id = "4f2a";
  name = "/mc-1";
  status = status;
  ip = "172.18.0.2";
  ports = none;
  cpu_limit = 2;
  memory_limit = pos 4;
}

abbrev fits : CanFit whole
fits used request budget = leb (used.cpu + request.cpu) budget.cpu

-- The world is the status of the container mc-1, or "" where there is none.
abbrev pub host : Host whole
host = record {
  World = String;
  get = λ id w.
      if id == "mc-1" && not (w == "") then (ok (some (container_of w)), w) else (err gone, w);
  get_owned = λ id w. (err gone, w);
  create = λ spec w. (err refused, w);
  destroy = λ id w. (none, "");
  hook = λ name w. (err "no such hook", w);
  unix_nano = λ w. (pos 1, w);
  can_fit = fits;
}

abbrev first_ip : Ip
first_ip = record { a = 10; b = 99; c = 0; d = 10 }

abbrev pool : PortPool
pool = record { start = pos 25565; end = pos 25570; allocated = (pos 25565, "lobby") ∷ [] }

abbrev pools : PortPoolSet
pools = record { fallback = pool; pools = [] }

abbrev addresses : IpPool
addresses = record { start = first_ip; end = first_ip; allocated = [] }

abbrev pub node_with : String → Node whole host
node_with status = record {
  capacity = record {
    cpu_budget = 8;
    mem_budget = 16;
    alloc_cpu = 0;
    alloc_mem = 0;
    containers = [];
  };
  ipp = addresses;
  port_pools = pools;
  world = status;
}

abbrev spec : ContainerSpec whole
spec = record {
  image = "itzg/minecraft-server";
  name = "";
  environment = none;
  volumes = none;
  ports = [];
  network = "";
  ip = "";
  cpu_limit = 2;
  memory_limit = pos 4;
  disk_io_read_bps = pos 0;
  disk_io_write_bps = pos 0;
  disk_size_limit = pos 0;
  pids_limit = pos 0;
  memory_swap = pos 0;
}

abbrev paper : Template whole
paper = record { name = "paper"; container = spec; server = none; pre_start = ""; engines = [] }

abbrev pub core : CreationCore whole host
core = record {
  templates = ("paper", paper) ∷ [];
  external_host = "";
  runtime_node_id = "node-a";
  recover_failed = none;
}

abbrev request : CreateServerRequest whole
request = record { template = "paper"; server_id = "mc-1"; env = none; resources = none }

first_ip-IsIp : IsIp first_ip
first_ip-IsIp = record {
  a_byte = omega arith;
  b_byte = omega arith;
  c_byte = omega arith;
  d_byte = omega arith;
}

pub pools-IsKeyed : IsKeyed pools
unfolding get
pools-IsKeyed = record { ranges = tt; ports = go }
  where
    go : (place : Place) (p : PortPool) → pool_at pools place ≡ some p → Unique p.allocated
    go fallback p e =
        let h : pool ≡ p = cc in subst (λ (q : PortPool). Unique q.allocated) h (refl, tt)
    go (ranged r) p e = absurd (ground arith)

abbrev lobby : String
lobby = "lobby"

abbrev mc_1 : String
mc_1 = "mc-1"

pools-HoldsNoPort : HoldsNoPort pools "mc-1"
unfolding get Option.bind
pools-HoldsNoPort fallback port = λ e. ground (arith, eq_iff lobby mc_1)
pools-HoldsNoPort (ranged r) port = λ e. ground arith

node-IsReady : IsReady whole host (node_with "") "mc-1"
unfolding get
node-IsReady = record {
  start_ip = first_ip-IsIp;
  end_ip = first_ip-IsIp;
  keyed = pools-IsKeyed;
  no_port = pools-HoldsNoPort;
  untracked = refl;
}

provision-SameHoldings_example :
    SameHoldings whole host (node_with "") (provision whole host core request (node_with "")).1
unfolding provision get allocate_create_network allocate_ports Pools.allocate Ports.allocate
    first_free suc_ℤ try_allocate apply create_or_resolve is_docker_name_conflict
provision-SameHoldings_example =
    provision-SameHoldings whole whole-IsExact host core (node_with "") request
      (ground (arith, eq_iff request.server_id "")) node-IsReady refl

-- A core whose recovery removes the runtime.
abbrev recovering : CreationCore whole host
recovering = record core {
  recover_failed = some (λ id server_id n. (none, record n { world = "" }));
}

create_fenced-Reconciled_example :
    Reconciled whole host recovering request "k-1" "e-1"
      (node_with "exited")
      (create_fenced whole host recovering request "k-1" "e-1" (node_with "exited"))
create_fenced-Reconciled_example =
    create_fenced-Reconciled whole host recovering request "k-1" "e-1" (node_with "exited")

allocate_create_network-Undone_example :
    Undone whole addresses pools "mc-1" (allocate_create_network whole addresses pools "mc-1" spec)
allocate_create_network-Undone_example =
    allocate_create_network-Undone whole addresses pools "mc-1" spec first_ip-IsIp first_ip-IsIp
      pools-IsKeyed pools-HoldsNoPort

retire_server-Retired_example :
    Retired whole host "lobby"
      (node_with "running")
      (retire_server whole host "lobby" false "" (node_with "running"))
retire_server-Retired_example =
    retire_server-Retired whole host "lobby" "" (node_with "running") pools-IsKeyed

abbrev constant_digest : Digest whole host
constant_digest version key receipt replacement =
    some "0123456789abcdef0123456789abcdef0123456789abcdef0123456789abcdef"

abbrev replaces : RecreateServerRequestV1 whole
replaces = record {
  version = pos 1;
  idempotency_key = "k-1";
  receipt_id = "r-1";
  immutable_spec_sha256 = "0123456789abcdef0123456789abcdef0123456789abcdef0123456789abcdef";
  replacement = request;
}

abbrev receipt : RecreateServerReceiptV1 whole
receipt = record {
  version = pos 1;
  idempotency_key = "k-1";
  receipt_id = "r-1";
  old_container_id = "old-1";
  replacement = response_server whole host core (container_of "running") "mc-1";
  replacement_ready = true;
  old_retired = true;
}

abbrev recreator : Recreator whole host
recreator = record { node = node_with "running"; replays = [] }

recreate_again_example :
    recreate whole host constant_digest core
      (recreate whole host constant_digest core recreator "old-1" replaces).1
      "old-2"
      replaces
    ≡ (ok receipt, (recreate whole host constant_digest core recreator "old-1" replaces).1)
unfolding recreate refusal get valid_fleet_identity valid_recreate_token to_lower response_server
    create existing_server trim_prefix
recreate_again_example =
    recreate_again whole host constant_digest core recreator "old-1" "old-2" replaces receipt refl
      refl
