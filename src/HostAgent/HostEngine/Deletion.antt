-- ===== src/HostAgent/HostEngine/Deletion.antt =====
-- What the deletion of a workload leaves held.
use bananagine.Prelude.{
  String, ℤ, false, Option, none, some, ◌≡◌, refl, ap, ◌∙◌, inl, inr, Option-cases,
}
use bananagine.Service.{ok, err, Result-cases}
use bananagine.Allocation.Capacity.{Float64}
use bananagine.Allocation.Ports.PoolOwners.{IsKeyed}
use bananagine.Creation.Host.{Host, Cause, DockerError}
use bananagine.Creation.Lookup.{Found, existing_server}
use bananagine.Creation.Core.{Node, CreationCore}
use bananagine.Creation.Retire.{retire_server, Retired, retire_server-Retired}
use bananagine.HostAgent.Types.{Invocation}
use bananagine.HostAgent.Executable.{ExecutableSpec, ExecutableAssignment}
use bananagine.HostAgent.HostEngine.{Answer, failed, reached, Console, is_foreign, deleted, delete}

module _ (f : Float64) (h : Host f) (console : Console h.World) (local_host : String)
    (core : CreationCore f h) (decode : String → Option ExecutableAssignment)
    (digest : ExecutableSpec → String) (text : Cause f → String) (thousandths : ℤ → f.Amount) where
  -- The node after the lookup of the workload.
  abbrev pub seen : Invocation → Node f h → Node f h
  seen inv n = record n { world = (existing_server f h inv.workload_id n.world).1 }

  -- What a deletion has done, by the result of the lookup.
  abbrev pub Deleted : Found f h → Node f h → Answer × Node f h → Type 0
  Deleted (err cause) n (answer, after) = (answer ≡ failed (text cause)) × (after ≡ n)
  Deleted (ok none) n (answer, after) = (answer ≡ reached "deleted" "") × (after ≡ n)
  Deleted (ok (some server)) n (answer, after) =
      (failure : Option DockerError) × (answer
        ≡ deleted f h console local_host core decode digest text thousandths failure)
      × Retired f h server.id n (failure, after)

  -- Of a deletion for this host, with well-formed port pools: a failed lookup is an error and changes no
  -- holding; a runtime that is not found counts as deleted, and no holding is released; a runtime that is
  -- found is retired, and if that succeeds, no port of any pool and no capacity is left with its ID.
  pub delete-Deleted :
      (inv : Invocation) (n : Node f h)
      → is_foreign local_host inv ≡ false
      → IsKeyed n.port_pools
      → Deleted
          (existing_server f h inv.workload_id n.world).0
          (seen inv n)
          (delete f h console local_host core decode digest text thousandths inv n)
  unfolding delete
  delete-Deleted inv n ours keyed =
      elim (Result-cases (existing_server f h inv.workload_id n.world).0) [
        | inr (cause, lost) ↦ rw (ours, lost, delete) (refl, refl)
        | inl (runtime, looked) ↦ elim (Option-cases runtime) [
          | inl absent ↦
              let nothing = looked ∙ ap (λ r. ok r) absent in
              rw (ours, nothing, delete) (refl, refl)
          | inr (server, there) ↦
              let id = server.id in
              let something = looked ∙ ap (λ r. ok r) there in
              let (failure, after) = retire_server f h id false inv.workload_id (seen inv n) in
              rw (ours, something, delete)
                (failure, refl, retire_server-Retired f h id inv.workload_id (seen inv n) keyed)
        ]
      ]
