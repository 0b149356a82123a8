-- ===== src/Allocation/Ports/Pools.antt =====
-- pulp-cell/ports.go, `portPoolSet`: one pool for each range text, beside a fallback pool.
use bananagine.Prelude.{
  String, ℤ, leb_ℤ, string_eq, ◌==◌, Option, none, some, [], ◌∷◌, if◌then◌else◌,
}
use bananagine.Text.Scan.{scan_range}
use bananagine.Map.{Map, get, put}
use bananagine.Map.Values.{map_values}
use bananagine.Service.{Result, ok, err, ◌>>=◌}
use bananagine.Allocation.Ports
use bananagine.Allocation.Ports.{PortPool, PortError, new_port_pool, invalid_port_range, contains}

pub record PortPoolSet : Type 0 where
  pub fallback : PortPool
  pub pools : Map String PortPool

abbrev pub new_port_pool_set : PortPool → PortPoolSet
new_port_pool_set fallback = record { fallback = fallback; pools = [] }

unfoldable pub parse_range : String → Result PortError (ℤ × ℤ)
parse_range r = elim (scan_range r) [
  | none ↦ err (invalid_port_range r)
  | some (start, end) ↦ if leb_ℤ start end then ok (start, end) else err (invalid_port_range r)
]

-- The pool of a range: the one that is there, or a new one.
unfoldable pub pool_for : PortPoolSet → String → Result PortError PortPool
unfolding parse_range
pool_for ps range = elim (get ps.pools range) [
  | some p ↦ ok p
  | none ↦ parse_range range >>= λ (start, end). ok (new_port_pool start end)
]

-- A pool is a pointer in Go: what `allocate` does to it stands in the map, also if no port is free.
unfoldable pub allocate : PortPoolSet → String → String → PortPoolSet × Result PortError ℤ
unfolding pool_for
allocate ps range server_id =
    if range == ""
    then (let (p, port) = Ports.allocate ps.fallback server_id in
        (record ps { fallback = p }, port))
    else (elim (pool_for ps range) [
      | err e ↦ (ps, err e)
      | ok pool ↦
          let (p, port) = Ports.allocate pool server_id in
          (record ps { pools = put ps.pools range p }, port)
    ])

unfoldable pub release_by_server : PortPoolSet → String → PortPoolSet
release_by_server ps server_id = record {
  fallback = Ports.release_by_server ps.fallback server_id;
  pools = map_values (λ p. Ports.release_by_server p server_id) ps.pools;
}

unfoldable pub re_key : PortPoolSet → String → String → PortPoolSet
re_key ps old_id new_id = record {
  fallback = Ports.re_key ps.fallback old_id new_id;
  pools = map_values (λ p. Ports.re_key p old_id new_id) ps.pools;
}

-- The loop of `reserve`: the first pool whose range has the port, or none.
unfoldable pub reserve_in : ℤ → String → Map String PortPool → Option (Map String PortPool)
reserve_in port server_id [] = none
reserve_in port server_id ((r, p) ∷ rest) =
    if contains p port
    then some ((r, Ports.reserve p port server_id) ∷ rest)
    else (elim (reserve_in port server_id rest) [
      | none ↦ none
      | some rest' ↦ some ((r, p) ∷ rest')
    ])

unfoldable pub reserve : PortPoolSet → ℤ → String → PortPoolSet
reserve ps port server_id = elim (reserve_in port server_id ps.pools) [
  | some pools ↦ record ps { pools = pools }
  | none ↦ record ps { fallback = Ports.reserve ps.fallback port server_id }
]
