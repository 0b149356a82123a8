-- ===== src/Allocation/Ports.antt =====
-- pulp-cell/ports.go, `portPool`. A pool maps a port to the server that holds it. `port++` does not
-- wrap: a range up to the greatest int would have to be full first.
pub mod Search
pub mod Owners
pub mod Pools
pub mod PoolOwners
pub mod PoolAllocation
use bananagine.Prelude.{
  ℕ, zero, suc, ◌+◌, ◌-◌, String, ℤ, pos_part, neg_part, leb_ℤ, suc_ℤ, int_eq, string_eq, Bool,
  ◌&&◌, ◌==◌, Option, none, some, [], if◌then◌else◌,
}
use bananagine.Map.{Map, get, put}
use bananagine.Map.Values.{map_values, delete_where}
use bananagine.Service.{Result, ok, err}

pub record PortPool : Type 0 where
  pub start : ℤ
  pub end : ℤ
  pub allocated : Map ℤ String

-- What `allocate` and `parseRange` fail with.
pub data PortError : Type 0 where
  no_ports_available : ℤ → ℤ → PortError
  invalid_port_range : String → PortError

abbrev pub new_port_pool : ℤ → ℤ → PortPool
new_port_pool start end = record { start = start; end = end; allocated = [] }

-- The rounds of `for port := start; port <= end; port++`.
abbrev pub rounds : ℤ → ℤ → ℕ
rounds start end = pos_part end + neg_part start + 1 - (pos_part start + neg_part end)

-- The loop of `allocate`, on the rounds left.
unfoldable pub first_free : ℕ → Map ℤ String → ℤ → ℤ → Option ℤ
first_free zero allocated port end = none
first_free (suc fuel) allocated port end =
    let rest = first_free fuel allocated (suc_ℤ port) end in
    if leb_ℤ port end
    then (elim (get allocated port) [ none ↦ some port | some _ ↦ rest ])
    else none

unfoldable pub allocate : PortPool → String → PortPool × Result PortError ℤ
allocate p server_id = elim (first_free (rounds p.start p.end) p.allocated p.start p.end) [
  | none ↦ (p, err (no_ports_available p.start p.end))
  | some port ↦ (record p { allocated = put p.allocated port server_id }, ok port)
]

unfoldable pub release_by_server : PortPool → String → PortPool
release_by_server p server_id = record p {
  allocated = delete_where (λ id. id == server_id) p.allocated;
}

unfoldable pub re_key : PortPool → String → String → PortPool
re_key p old_id new_id = record p {
  allocated = map_values (λ id. if id == old_id then new_id else id) p.allocated;
}

unfoldable pub reserve : PortPool → ℤ → String → PortPool
reserve p port server_id = record p { allocated = put p.allocated port server_id }

unfoldable pub contains : PortPool → ℤ → Bool
contains p port = leb_ℤ p.start port && leb_ℤ port p.end
