-- ===== src/Allocation/Ports/Owners.antt =====
-- pulp-cell/ports.go: release, re-keying and reservation by owner.
use mathlib.Core.Option
use bananagine.Prelude.{
  String, ℤ, int_eq, string_eq, ◌==◌, Option, ◌≡◌, if◌then◌else◌, inl, inr, Option-cases,
}
use bananagine.Map.{get, Unique, put-Unique}
use bananagine.Map.Values.{
  unless, get-delete_where, get-map_values, delete_where-Unique, map_values-Unique,
}
use bananagine.Allocation.Ports.{
  PortPool, rounds, first_free, allocate, release_by_server, re_key, reserve,
}

-- The server that holds a port.
abbrev pub holder : PortPool → ℤ → Option String
holder p port = get p.allocated port

-- A release frees the ports of its server and no other.
pub holder-release_by_server :
    (p : PortPool) (server_id : String) (port : ℤ)
    → Unique p.allocated
    → holder (release_by_server p server_id) port ≡ unless (λ id. id == server_id) (holder p port)
unfolding release_by_server
holder-release_by_server p server_id port u =
    get-delete_where (λ id. id == server_id) p.allocated port u

-- Re-keying hands every port of the old ID to the new one and leaves the rest.
pub holder-re_key :
    (p : PortPool) (old_id new_id : String) (port : ℤ)
    → holder (re_key p old_id new_id) port
      ≡ Option.map (λ id. if id == old_id then new_id else id) (holder p port)
unfolding re_key
holder-re_key p old_id new_id port =
    get-map_values (λ id. if id == old_id then new_id else id) p.allocated port

pub allocate-Unique :
    (p : PortPool) (server_id : String)
    → Unique p.allocated
    → Unique (allocate p server_id).0.allocated
unfolding allocate
allocate-Unique p server_id u =
    elim (Option-cases (first_free (rounds p.start p.end) p.allocated p.start p.end)) [
      | inl e ↦ rw (e, allocate) u
      | inr (port, e) ↦ rw (e, allocate) (put-Unique p.allocated port server_id u)
    ]

pub release_by_server-Unique :
    (p : PortPool) (server_id : String)
    → Unique p.allocated
    → Unique (release_by_server p server_id).allocated
unfolding release_by_server
release_by_server-Unique p server_id u = delete_where-Unique (λ id. id == server_id) p.allocated u

pub re_key-Unique :
    (p : PortPool) (old_id new_id : String)
    → Unique p.allocated
    → Unique (re_key p old_id new_id).allocated
unfolding re_key
re_key-Unique p old_id new_id u =
    map_values-Unique (λ id. if id == old_id then new_id else id) p.allocated u

pub reserve-Unique :
    (p : PortPool) (port : ℤ) (server_id : String)
    → Unique p.allocated
    → Unique (reserve p port server_id).allocated
unfolding reserve
reserve-Unique p port server_id u = put-Unique p.allocated port server_id u
