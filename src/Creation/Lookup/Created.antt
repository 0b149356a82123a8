-- ===== src/Creation/Lookup/Created.antt =====
-- pulp-cell/idempotent_create.go: where a new container comes from, and how it is found.
use bananagine.Prelude.{
  String, true, false, string_eq, ◌==◌, none, some, ◌≡◌, ◌≢◌, ◌∙◌, refl, ap, eq_iff, inl, inr,
  Bool-cases,
}
use bananagine.Text.Strings.{trim_prefix}
use bananagine.Service.{Result, ok, err, ok_injective}
use bananagine.Allocation.Capacity.{Float64}
use bananagine.Creation.Template.{ContainerSpec}
use bananagine.Creation.Host.{DockerError, DockerServer, Host, is_docker_name_conflict}
use bananagine.Creation.Lookup.{
  Found, existing_server, after_conflict, after_create, create_or_resolve,
}

module _ (f : Float64) (h : Host f) where
  -- A container that docker lists under a name is found under it.
  pub existing_server-listed :
      (id : String) (w : h.World) (found : DockerServer f)
      → h.get id w ≡ (ok (some found), w)
      → trim_prefix found.name "/" ≡ id
      → existing_server f h id w ≡ (ok (some found), w)
  unfolding existing_server
  existing_server-listed id w found listed named =
      let same : (trim_prefix found.name "/" == id) ≡ true =
        (eq_iff (trim_prefix found.name "/") id).1 named in
      rw (listed, existing_server, same) refl

  -- The winner of a name conflict is not new.
  after_conflict-old :
      (id : String) (e : DockerError) (found : Found f h) (server : DockerServer f)
      → after_conflict f h id e found ≢ ok (server, false)
  unfolding after_conflict
  after_conflict-old id e (err cause) server q = absurd cc
  after_conflict-old id e (ok none) server q = absurd cc
  after_conflict-old id e (ok (some existing)) server q =
      let clash : true ≡ false = ap (λ p. p.1) (ok_injective q) in absurd cc

  after_create-new :
      (id : String) (made : Result DockerError (DockerServer f)) (w : h.World)
      (server : DockerServer f)
      → (after_create f h id made w).0 ≡ ok (server, false)
      → (made ≡ ok server) × (w ≡ (after_create f h id made w).1)
  unfolding after_create
  after_create-new id (ok made) w server = λ q. (ap (λ p. ok p.0) (ok_injective q), refl)
  after_create-new id (err e) w server = elim (Bool-cases (is_docker_name_conflict e)) [
    | inr other ↦ rw (other, after_create) (λ q. absurd cc)
    | inl conflict ↦
        rw (conflict, after_create)
          (λ q. absurd (after_conflict-old id e (existing_server f h id w).0 server q))
  ]

  -- A container that is reported as new was created by the call.
  pub create_or_resolve-new :
      (id : String) (spec : ContainerSpec f) (w : h.World) (server : DockerServer f)
      → (create_or_resolve f h id spec w).0 ≡ ok (server, false)
      → h.create spec w ≡ (ok server, (create_or_resolve f h id spec w).1)
  unfolding create_or_resolve
  create_or_resolve-new id spec w server q =
      let (made, same) = after_create-new id (h.create spec w).0 (h.create spec w).1 server q in
      ap (λ r. (r, (h.create spec w).1)) made ∙ ap (λ v. (ok server, v)) same
