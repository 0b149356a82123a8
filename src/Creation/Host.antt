-- ===== src/Creation/Host.antt =====
-- The host that the cell runs on: Fiber's docker capability, HTTP and the clock. None of it is in the
-- repository, so it is a record of operations on a state of its own.
use bananagine.Prelude.{String, ℤ, Bool, ◌||◌, ◌&&◌, Option}
use bananagine.Map.{Map}
use bananagine.Text.Strings.{contains, to_lower}
use bananagine.Service.{Result}
use bananagine.Allocation.Ports.{PortError}
use bananagine.Allocation.Ips.{IpError}
use bananagine.Allocation.Capacity.{Float64, CanFit, CapacityError}
use bananagine.Creation.Template.{ContainerSpec}

-- An error of the docker capability: whether it is pulp.ErrNotFound, and its text.
pub record DockerError : Type 0 where
  pub is_not_found : Bool
  pub message : String

-- pulp-cell/main.go.
unfoldable pub is_docker_not_found : DockerError → Bool
unfolding contains to_lower
is_docker_not_found e =
    e.is_not_found
    || contains (to_lower e.message) "not found"
    || contains (to_lower e.message) "no such container"

unfoldable pub is_docker_name_conflict : DockerError → Bool
unfolding contains to_lower
is_docker_name_conflict e =
    contains (to_lower e.message) "container name" && contains (to_lower e.message) "already in use"

module _ (f : Float64) where
  open f use {Amount}

  -- The fields of docker.Server that the program reads.
  pub record DockerServer : Type 0 where
    pub id : String
    pub name : String
    pub status : String
    pub ip : String
    pub ports : Option (Map String ℤ)
    pub cpu_limit : Amount
    pub memory_limit : ℤ

  -- What an operation fails with.
  pub data Cause : Type 0 where
    docker_error : DockerError → Cause
    no_container : String → Cause
    other_name : String → String → Cause
    name_conflict : String → Cause → Cause
    port_error : PortError → Cause
    ip_error : IpError → Cause
    capacity_error : CapacityError f → Cause
    hook_error : String → Cause
    template_not_found : Cause
    needs_fenced_recovery : Cause
    retire_failed : Cause → Cause

  pub record Host : Type 1 where
    pub World : Type 0
    pub get : String → World → Result DockerError (Option DockerServer) × World
    pub get_owned : String → World → Result DockerError (Option DockerServer) × World
    pub create : ContainerSpec f → World → Result DockerError DockerServer × World
    pub destroy : String → World → Option DockerError × World
    pub hook : String → World → Result String (Map String String) × World
    pub unix_nano : World → ℤ × World
    pub can_fit : CanFit f
