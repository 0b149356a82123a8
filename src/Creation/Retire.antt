-- ===== src/Creation/Retire.antt =====
-- pulp-cell/retirement_core.go.
use bananagine.Prelude.{
  String, Bool, false, not, string_eq, ◌==◌, Option, none, some, ◌≡◌, refl, if◌then◌else◌, inl, inr,
  Bool-cases, Option-cases, ℤ,
}
use bananagine.Map.{get}
use bananagine.Map.Values.{unless}
use bananagine.Allocation.Ports.Pools
use bananagine.Allocation.Ports.PoolOwners.{Place, held, IsKeyed, held-release_by_server}
use bananagine.Allocation.Ips
use bananagine.Allocation.Capacity
use bananagine.Allocation.Capacity.{Float64}
use bananagine.Allocation.Capacity.Accounts.{get-release}
use bananagine.Creation.Host.{DockerError, Host, is_docker_not_found}
use bananagine.Creation.Core.{Node}

module _ (f : Float64) (h : Host f) where
  release_ownership : String → Bool → String → Node f h → Node f h
  release_ownership id keep_allocations new_id n =
      let freed : Node f h = record n { capacity = Capacity.release f n.capacity id } in
      if not keep_allocations
      then record freed {
        port_pools = Pools.release_by_server n.port_pools id;
        ipp = Ips.release_by_server n.ipp id;
      }
      else if not (new_id == "")
      then record freed {
        port_pools = Pools.re_key n.port_pools id new_id;
        ipp = Ips.re_key n.ipp id new_id;
      }
      else freed

  -- The error, if any, and the node. Nothing is released where docker fails otherwise than by not
  -- finding the container.
  unfoldable pub retire_server : String → Bool → String → Node f h → Option DockerError × Node f h
  unfolding release_ownership
  retire_server id keep_allocations new_id n =
      let (failed, w) = h.destroy id n.world in
      let n' : Node f h = record n { world = w } in
      elim failed [
        | none ↦ (none, release_ownership id keep_allocations new_id n')
        | some e ↦
            if is_docker_not_found e
            then (none, release_ownership id keep_allocations new_id n')
            else (some e, n')
      ]

  -- No port of any pool and no capacity is the retired ID's any more, and the other ports are held
  -- as before.
  abbrev pub Freed : String → Node f h → Node f h → Type 0
  Freed id n after =
      ((place : Place) (port : ℤ)
        → held after.port_pools place port
          ≡ unless (λ owner. owner == id) (held n.port_pools place port))
      × (get after.capacity.containers id ≡ none)

  release_ownership-Freed :
      (id new_id : String) (n : Node f h)
      → IsKeyed n.port_pools
      → Freed id n (release_ownership id false new_id n)
  unfolding release_ownership
  release_ownership-Freed id new_id n k = (
    λ place port. held-release_by_server n.port_pools id place port k,
    get-release f n.capacity id,
  )

  -- What a retirement without kept allocations answers and leaves.
  abbrev pub Retired : String → Node f h → Option DockerError × Node f h → Type 0
  Retired id n (some e, after) = after ≡ record n { world = (h.destroy id n.world).1 }
  Retired id n (none, after) = Freed id n after

  -- Of retirements that keep no allocations, with well-formed port pools: one that reports an error
  -- has released nothing; one that reports none leaves no port, in any pool, and no
  -- capacity with the retired ID, and every port of another server as it was.
  pub retire_server-Retired :
      (id new_id : String) (n : Node f h)
      → IsKeyed n.port_pools
      → Retired id n (retire_server id false new_id n)
  unfolding retire_server
  retire_server-Retired id new_id n k =
      let freed =
        release_ownership-Freed id new_id (record n { world = (h.destroy id n.world).1 }) k in
      elim (Option-cases (h.destroy id n.world).0) [
        | inl gone ↦ rw (gone, retire_server) freed
        | inr (e, failed) ↦ elim (Bool-cases (is_docker_not_found e)) [
          | inl absent ↦ rw (failed, absent, retire_server) freed
          | inr other ↦ rw (failed, other, retire_server) refl
        ]
      ]
