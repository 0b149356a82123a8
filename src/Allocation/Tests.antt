-- ===== src/Allocation/Tests.antt =====
-- Runs of pulp-cell/ports.go, pulp-cell/ips.go and pulp-cell/capacity.go at concrete inputs.
use mathlib.Core.Option
use bananagine.Prelude.{
  String, string_eq, int_eq, pos, ◌==◌, ◌≡◌, refl, arith, [], ◌∷◌, none, some, inl, inr,
  if◌then◌else◌, subst, Bool-cases, suc_ℤ, leb, ◌+◌, ◌&&◌, eq_iff, ◌%◌, ◌^◌,
}
use bananagine.Map.{get, put, delete, Unique}
use bananagine.Map.Values.{unless}
use bananagine.Service.{ok}
use bananagine.Allocation.Ports
use bananagine.Allocation.Ports.{PortPool, first_free, contains}
use bananagine.Allocation.Ports.Search
use bananagine.Allocation.Ports.Pools
use bananagine.Allocation.Ports.Pools.{PortPoolSet}
use bananagine.Allocation.Ports.PoolOwners.{
  Place, fallback, ranged, held, pool_at, IsKeyed, held-release_by_server, held-re_key,
}
use bananagine.Allocation.Ports.PoolAllocation
use bananagine.Allocation.Ips
use bananagine.Allocation.Ips.{IpPool}
use bananagine.Allocation.Ips.Address.{Ip, IsIp, inc_ip, value, inc_ip_lem}
use bananagine.Allocation.Ips.Owners.{
  holder, OneEach, holder-release_by_server, release_by_server_frees_one,
}
use bananagine.Allocation.Capacity.{Tracker, CanFit, try_allocate, commit, release}
use bananagine.Allocation.Capacity.Accounts.{IsAccounted, SameCapacity, try_allocate-commit-release}
use bananagine.Allocation.Capacity.History.{Call, History, History-IsAccounted_from_new}
use bananagine.Allocation.Capacity.{new_capacity_tracker}
use bananagine.Allocation.Capacity.Whole.{whole, whole-IsExact}

abbrev pool : PortPool
pool = record { start = pos 25565; end = pos 25567; allocated = (pos 25565, "lobby") ∷ [] }

abbrev wide : PortPool
wide = record { start = pos 25565; end = pos 25570; allocated = [] }

abbrev ranges : PortPoolSet
ranges = record { fallback = pool; pools = ("25565-25570", wide) ∷ [] }

abbrev free_ranges : PortPoolSet
free_ranges = record ranges { fallback = record pool { allocated = [] } }

pool-Unique : Unique pool.allocated
unfolding get
pool-Unique = (refl, tt)

ranges-IsKeyed : IsKeyed ranges
unfolding get
ranges-IsKeyed = record { ranges = (refl, tt); ports = go }
  where
    go : (place : Place) (p : PortPool) → pool_at ranges place ≡ some p → Unique p.allocated
    go fallback p e =
        let h : pool ≡ p = cc in subst (λ (q : PortPool). Unique q.allocated) h pool-Unique
    go (ranged r) p e = elim (Bool-cases ("25565-25570" == r)) [
      | inl hit ↦
          let h : wide ≡ p = ground arith in subst (λ (q : PortPool). Unique q.allocated) h tt
      | inr miss ↦ absurd (ground arith)
    ]

allocate-TakesFirst_example : Search.TakesFirst pool "mc-1" (Ports.allocate pool "mc-1")
allocate-TakesFirst_example = Search.allocate-TakesFirst pool "mc-1"

allocates_next : (Ports.allocate pool "mc-1").1 ≡ ok (pos 25566)
unfolding Ports.allocate first_free get suc_ℤ
allocates_next = refl

allocate-Allocates_example :
    PoolAllocation.Allocates ranges
      (ranged "25565-25570")
      "mc-1"
      (Pools.allocate ranges "25565-25570" "mc-1")
allocate-Allocates_example = PoolAllocation.allocate-Allocates ranges "25565-25570" "mc-1"

held-release_by_server_example :
    held (Pools.release_by_server ranges "lobby") fallback (pos 25565)
    ≡ unless (λ id. id == "lobby") (held ranges fallback (pos 25565))
held-release_by_server_example =
    held-release_by_server ranges "lobby" fallback (pos 25565) ranges-IsKeyed

held-re_key_example :
    held (Pools.re_key ranges "lobby" "mc-2") fallback (pos 25565)
    ≡ Option.map (λ id. if id == "lobby" then "mc-2" else id) (held ranges fallback (pos 25565))
held-re_key_example = held-re_key ranges "lobby" "mc-2" fallback (pos 25565)

overlap_hands_out_twice_example :
    ((Pools.allocate free_ranges "" "mc-1").1 ≡ ok (pos 25565))
    × ((Pools.allocate (Pools.allocate free_ranges "" "mc-1").0 "25565-25570" "mc-2").1
        ≡ ok (pos 25565))
unfolding get
overlap_hands_out_twice_example =
    PoolAllocation.overlap_hands_out_twice free_ranges "25565-25570" "mc-1" "mc-2" wide refl refl
      refl (omega arith) (omega arith) refl refl

abbrev first_ip : Ip
first_ip = record { a = 10; b = 99; c = 0; d = 10 }

abbrev last_ip : Ip
last_ip = record { a = 10; b = 99; c = 0; d = 250 }

first_ip-IsIp : IsIp first_ip
first_ip-IsIp = record {
  a_byte = omega arith;
  b_byte = omega arith;
  c_byte = omega arith;
  d_byte = omega arith;
}

last_ip-IsIp : IsIp last_ip
last_ip-IsIp = record {
  a_byte = omega arith;
  b_byte = omega arith;
  c_byte = omega arith;
  d_byte = omega arith;
}

abbrev addresses : IpPool
addresses = record {
  start = first_ip;
  end = last_ip;
  allocated = ("10.99.0.10", "mc-1") ∷ ("10.99.0.11", "mc-2") ∷ [];
}

abbrev doubled : IpPool
doubled = record addresses { allocated = ("10.99.0.10", "mc-1") ∷ ("10.99.0.11", "mc-1") ∷ [] }

allocate-TakesAddress_example :
    Ips.Search.TakesAddress addresses "mc-3" (Ips.allocate addresses "mc-3")
allocate-TakesAddress_example =
    Ips.Search.allocate-TakesAddress addresses "mc-3" first_ip-IsIp last_ip-IsIp

inc_ip_lem_example :
    IsIp (inc_ip first_ip) × (value (inc_ip first_ip) ≡ (value first_ip + 1) % 2 ^ 32)
inc_ip_lem_example = inc_ip_lem first_ip first_ip-IsIp

addresses-OneEach : OneEach addresses
unfolding get
addresses-OneEach i j id p q = ground (
  arith,
  eq_iff "10.99.0.10" i,
  eq_iff "10.99.0.10" j,
  eq_iff "10.99.0.11" i,
  eq_iff "10.99.0.11" j,
  eq_iff one two,
)
  where
    one : String
    one = "mc-1"

    two : String
    two = "mc-2"

holder-release_by_server_example :
    holder (Ips.release_by_server addresses "mc-1") "10.99.0.10"
    ≡ unless (λ id. id == "mc-1") (holder addresses "10.99.0.10")
unfolding get
holder-release_by_server_example =
    holder-release_by_server addresses "mc-1" "10.99.0.10" (refl, (refl, tt)) addresses-OneEach

release_by_server_frees_one_example :
    (k : String) × (holder doubled k ≡ some "mc-1")
    × ((ip : String)
        → holder (Ips.release_by_server doubled "mc-1") ip
          ≡ (if k == ip then none else holder doubled ip))
unfolding get
release_by_server_frees_one_example =
    release_by_server_frees_one doubled "mc-1" "10.99.0.11" (refl, (refl, tt)) refl

abbrev tracker : Tracker whole
tracker = record { cpu_budget = 8; mem_budget = 16; alloc_cpu = 0; alloc_mem = 0; containers = [] }

abbrev fits : CanFit whole
fits used request budget =
    leb (used.cpu + request.cpu) budget.cpu
    && leb (used.memory_gib + request.memory_gib) budget.memory_gib

-- An allocation, its commit to a container, and the release of the container.
history : History whole fits (new_capacity_tracker whole 8 16) (
    release whole
      (commit whole (try_allocate whole fits tracker "mc-1" 2 (pos 4)).0 "mc-1" "4f2a")
      "4f2a")
unfolding get put delete try_allocate new_capacity_tracker
history =
    History.next
      (History.next (History.next History.here (Call.allocates tracker "mc-1" 2 (pos 4) refl))
        (Call.commits (try_allocate whole fits tracker "mc-1" 2 (pos 4)).0 "mc-1" "4f2a" refl))
      (Call.releases
        (commit whole (try_allocate whole fits tracker "mc-1" 2 (pos 4)).0 "mc-1" "4f2a") "4f2a")

History-IsAccounted_from_new_example : IsAccounted whole (
    release whole
      (commit whole (try_allocate whole fits tracker "mc-1" 2 (pos 4)).0 "mc-1" "4f2a")
      "4f2a")
History-IsAccounted_from_new_example =
    History-IsAccounted_from_new whole fits whole-IsExact 8 16
      (release whole
        (commit whole (try_allocate whole fits tracker "mc-1" 2 (pos 4)).0 "mc-1" "4f2a") "4f2a")
      history

try_allocate-commit-release_example : SameCapacity whole tracker (
    release whole
      (commit whole (try_allocate whole fits tracker "mc-1" 2 (pos 4)).0 "mc-1" "4f2a")
      "4f2a")
unfolding get try_allocate
try_allocate-commit-release_example =
    try_allocate-commit-release whole whole-IsExact fits tracker "mc-1" "4f2a" 2 (pos 4) refl refl
      refl
