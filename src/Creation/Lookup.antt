-- ===== src/Creation/Lookup.antt =====
-- pulp-cell/idempotent_create.go: finding the runtime of a logical server ID, and the name conflict.
pub mod Created
use bananagine.Prelude.{
  String, Bool, true, false, string_eq, ◌==◌, Option, none, some, if◌then◌else◌,
}
use bananagine.Text.Strings.{trim_prefix}
use bananagine.Service.{Result, ok, err}
use bananagine.Allocation.Capacity.{Float64}
use bananagine.Creation.Template.{ContainerSpec}
use bananagine.Creation.Host.{
  DockerError, DockerServer, Cause, docker_error, no_container, other_name, name_conflict, Host,
  is_docker_not_found, is_docker_name_conflict,
}

module _ (f : Float64) (h : Host f) where
  open h use {World, get, get_owned, create}

  -- The server that was found, if any: Go's (server, found, err).
  abbrev pub Found : Type 0
  Found = Result (Cause f) (Option (DockerServer f))

  check_direct : String → Option (DockerServer f) → Found
  check_direct server_id none = err (no_container server_id)
  check_direct server_id (some server) =
      if trim_prefix server.name "/" == server_id
      then ok (some server)
      else err (other_name server_id server.name)

  check_owned : String → Result DockerError (Option (DockerServer f)) → Found
  check_owned server_id (ok none) = err (no_container server_id)
  check_owned server_id (ok (some server)) = ok (some server)
  check_owned server_id (err e) = if is_docker_not_found e then ok none else err (docker_error e)

  -- The logical name is looked up if the direct lookup finds no container.
  after_get : String → Result DockerError (Option (DockerServer f)) → World → Found × World
  unfolding check_direct check_owned
  after_get server_id (ok server) w = (check_direct server_id server, w)
  after_get server_id (err e) w =
      let (owned, w') = get_owned server_id w in
      if is_docker_not_found e then (check_owned server_id owned, w') else (err (docker_error e), w)

  unfoldable pub existing_server : String → World → Found × World
  unfolding after_get
  existing_server server_id w = let (r, w') = get server_id w in after_get server_id r w'

  -- A created server with `false`, or the one that won the name with `true`.
  abbrev pub Created : Type 0
  Created = Result (Cause f) (DockerServer f × Bool)

  after_conflict : String → DockerError → Found → Created
  after_conflict server_id e (err cause) = err (name_conflict server_id cause)
  after_conflict server_id e (ok none) = err (docker_error e)
  after_conflict server_id e (ok (some existing)) = ok (existing, true)

  after_create : String → Result DockerError (DockerServer f) → World → Created × World
  unfolding after_conflict existing_server
  after_create server_id (ok server) w = (ok (server, false), w)
  after_create server_id (err e) w =
      let (found, w') = existing_server server_id w in
      if is_docker_name_conflict e
      then (after_conflict server_id e found, w')
      else (err (docker_error e), w)

  unfoldable pub create_or_resolve : String → ContainerSpec f → World → Created × World
  unfolding after_create
  create_or_resolve server_id req w = let (r, w') = create req w in after_create server_id r w'
