-- ===== src/Allocation/Ports/PoolOwners.antt =====
-- pulp-cell/ports.go, `portPoolSet`: who holds which port of which pool, after each operation.
use mathlib.Core.Option
use bananagine.Prelude.{
  String, ℤ, Bool, true, false, int_eq, string_eq, ◌==◌, Option, some, ◌≡◌, refl, arith,
  if◌then◌else◌, inl, inr, Option-cases, Bool-cases, subst,
}
use bananagine.Map.{get, put, get-put, Unique, put-Unique}
use bananagine.Map.Values.{unless, map_values, get-map_values, map_values-Unique}
use bananagine.Allocation.Ports
use bananagine.Allocation.Ports.{PortPool, PortError, new_port_pool}
use bananagine.Allocation.Ports.Owners.{
  holder, holder-release_by_server, holder-re_key, release_by_server-Unique, re_key-Unique,
}
use bananagine.Allocation.Ports.Pools.{PortPoolSet, release_by_server, re_key}

-- The pool of a place: the fallback pool, or that of a range text.
pub data Place : Type 0 where
  fallback : Place
  ranged : String → Place

abbrev pub pool_at : PortPoolSet → Place → Option PortPool
pool_at ps fallback = some ps.fallback
pool_at ps (ranged r) = get ps.pools r

-- The server that holds a port in a place.
abbrev pub held : PortPoolSet → Place → ℤ → Option String
held ps place port = Option.bind (pool_at ps place) (λ p. holder p port)

-- No port stands twice in a pool, and no range twice in the set.
pub record IsKeyed (ps : PortPoolSet) : Type 0 where
  pub ranges : Unique ps.pools
  pub ports : (place : Place) (p : PortPool) → pool_at ps place ≡ some p → Unique p.allocated

-- A release frees every port of its server, in each pool, and no port of another server.
pub held-release_by_server :
    (ps : PortPoolSet) (server_id : String) (place : Place) (port : ℤ)
    → IsKeyed ps
    → held (release_by_server ps server_id) place port
      ≡ unless (λ id. id == server_id) (held ps place port)
unfolding release_by_server Option.bind
held-release_by_server ps server_id fallback port k =
    holder-release_by_server ps.fallback server_id port (k.ports fallback ps.fallback refl)
held-release_by_server ps server_id (ranged r) port k = elim (Option-cases (get ps.pools r)) [
  | inl e ↦ rw (get-map_values (λ p. Ports.release_by_server p server_id) ps.pools r, e)
  | inr (p, e) ↦
      rw (get-map_values (λ p. Ports.release_by_server p server_id) ps.pools r, e)
        (holder-release_by_server p server_id port (k.ports (ranged r) p e))
]

-- Re-keying hands every port of the old ID to the new one, in each pool, and leaves the rest.
pub held-re_key :
    (ps : PortPoolSet) (old_id new_id : String) (place : Place) (port : ℤ)
    → held (re_key ps old_id new_id) place port
      ≡ Option.map (λ id. if id == old_id then new_id else id) (held ps place port)
unfolding re_key Option.bind
held-re_key ps old_id new_id fallback port = holder-re_key ps.fallback old_id new_id port
held-re_key ps old_id new_id (ranged r) port = elim (Option-cases (get ps.pools r)) [
  | inl e ↦ rw (get-map_values (λ p. Ports.re_key p old_id new_id) ps.pools r, e)
  | inr (p, e) ↦
      rw (get-map_values (λ p. Ports.re_key p old_id new_id) ps.pools r, e)
        (holder-re_key p old_id new_id port)
]

Unique_of_some : (q p : PortPool) → some q ≡ some p → Unique q.allocated → Unique p.allocated
Unique_of_some q p e u = let h : q ≡ p = cc in subst (λ (x : PortPool). Unique x.allocated) h u

map_pools : (PortPool → PortPool) → PortPoolSet → PortPoolSet
map_pools f ps = record { fallback = f ps.fallback; pools = map_values f ps.pools }

map_pools-IsKeyed :
    (f : PortPool → PortPool) (ps : PortPoolSet)
    → ((p : PortPool) → Unique p.allocated → Unique (f p).allocated)
    → IsKeyed ps
    → IsKeyed (map_pools f ps)
unfolding map_pools
map_pools-IsKeyed f ps keeps k = record {
  ranges = map_values-Unique f ps.pools k.ranges;
  ports = λ place p e. go place p e;
}
  where
    go :
        (place : Place) (p : PortPool)
        → pool_at (map_pools f ps) place ≡ some p
        → Unique p.allocated
    go fallback p e =
        Unique_of_some (f ps.fallback) p e (keeps ps.fallback (k.ports fallback ps.fallback refl))
    go (ranged r) p e = elim (Option-cases (get ps.pools r)) [
      | inl n ↦ absurd (ground (arith, get-map_values f ps.pools r))
      | inr (q, m) ↦
          Unique_of_some (f q) p (ground (arith, get-map_values f ps.pools r))
            (keeps q (k.ports (ranged r) q m))
    ]

pub release_by_server-IsKeyed :
    (ps : PortPoolSet) (server_id : String) → IsKeyed ps → IsKeyed (release_by_server ps server_id)
unfolding release_by_server map_pools
release_by_server-IsKeyed ps server_id =
    map_pools-IsKeyed (λ p. Ports.release_by_server p server_id) ps
      (λ p. release_by_server-Unique p server_id)

pub re_key-IsKeyed :
    (ps : PortPoolSet) (old_id new_id : String) → IsKeyed ps → IsKeyed (re_key ps old_id new_id)
unfolding re_key map_pools
re_key-IsKeyed ps old_id new_id =
    map_pools-IsKeyed (λ p. Ports.re_key p old_id new_id) ps (λ p. re_key-Unique p old_id new_id)

-- A set with one pool replaced, or added.
abbrev pub with_pool : PortPoolSet → Place → PortPool → PortPoolSet
with_pool ps fallback p = record ps { fallback = p }
with_pool ps (ranged r) p = record ps { pools = put ps.pools r p }

abbrev pub same : Place → Place → Bool
same fallback fallback = true
same (ranged r) (ranged t) = r == t
same _ _ = false

pub pool_at-with_pool :
    (ps : PortPoolSet) (at place : Place) (p : PortPool)
    → pool_at (with_pool ps at p) place ≡ (if same at place then some p else pool_at ps place)
pool_at-with_pool ps fallback fallback p = refl
pool_at-with_pool ps fallback (ranged t) p = refl
pool_at-with_pool ps (ranged r) fallback p = refl
pool_at-with_pool ps (ranged r) (ranged t) p = get-put ps.pools r t p

pub with_pool-IsKeyed :
    (ps : PortPoolSet) (at : Place) (p : PortPool)
    → Unique p.allocated
    → IsKeyed ps
    → IsKeyed (with_pool ps at p)
with_pool-IsKeyed ps at p u k = record {
  ranges = elim at as (λ a. Unique (with_pool ps a p).pools) [
    | fallback ↦ k.ranges
    | ranged r ↦ put-Unique ps.pools r p k.ranges
  ];
  ports = λ place q e. elim (Bool-cases (same at place)) [
    | inl hit ↦ Unique_of_some p q (ground (arith, pool_at-with_pool ps at place p)) u
    | inr miss ↦ k.ports place q (ground (arith, pool_at-with_pool ps at place p))
  ];
}
