-- ===== src/Allocation/Ips.antt =====
-- pulp-cell/ips.go. An address is its four bytes; the pool is keyed by `ip.String()`.
pub mod Address
pub mod Search
pub mod Owners
use bananagine.Prelude.{
  ℕ, zero, suc, ◌+◌, ◌-◌, ◌*◌, ◌%◌, ◌^◌, String, string_eq, ◌==◌, Option, none, some, Bool, [], ◌∷◌,
  if◌then◌else◌,
}
use bananagine.Map.{Map, get, put, delete}
use bananagine.Map.Values.{map_values}
use bananagine.Service.{Result, ok, err}
use Address.{Ip, inc_ip, ip_equal, ip_string, value}

pub record IpPool : Type 0 where
  pub start : Ip
  pub end : Ip
  pub allocated : Map String String

pub data IpError : Type 0 where
  no_ips_available : IpError

-- `net.ParseIP(s).To4()` of both ends; none stands for the panic.
unfoldable pub new_ip_pool : Option Ip → Option Ip → Option IpPool
new_ip_pool none end = none
new_ip_pool (some start) none = none
new_ip_pool (some start) (some end) = some (record { start = start; end = end; allocated = [] })

-- The loop of `allocate`, on the rounds left.
unfoldable pub first_free : ℕ → Map String String → Ip → Ip → Option String
first_free zero allocated ip end = none
first_free (suc fuel) allocated ip end =
    let rest = first_free fuel allocated (inc_ip ip) end in
    elim (get allocated (ip_string ip)) [
      | none ↦ some (ip_string ip)
      | some _ ↦ if ip_equal ip end then none else rest
    ]

-- The addresses from `start` to `end`, going round after 255.255.255.255.
abbrev pub rounds : Ip → Ip → ℕ
rounds start end = suc ((value end + 2 ^ 32 - value start) % 2 ^ 32)

unfoldable pub allocate : IpPool → String → IpPool × Result IpError String
allocate p server_id = elim (first_free (rounds p.start p.end) p.allocated p.start p.end) [
  | none ↦ (p, err no_ips_available)
  | some ip ↦ (record p { allocated = put p.allocated ip server_id }, ok ip)
]

unfoldable pub release : IpPool → String → IpPool
release p ip = record p { allocated = delete p.allocated ip }

-- The loop of `releaseByServer` returns after the first address of the server that it meets.
unfoldable pub delete_first : String → Map String String → Map String String
delete_first server_id [] = []
delete_first server_id ((ip, id) ∷ rest) =
    if id == server_id then rest else (ip, id) ∷ delete_first server_id rest

unfoldable pub release_by_server : IpPool → String → IpPool
release_by_server p server_id = record p { allocated = delete_first server_id p.allocated }

unfoldable pub re_key : IpPool → String → String → IpPool
re_key p old_id new_id = record p {
  allocated = map_values (λ id. if id == old_id then new_id else id) p.allocated;
}

unfoldable pub reserve : IpPool → String → String → IpPool
reserve p ip server_id = record p { allocated = put p.allocated ip server_id }
