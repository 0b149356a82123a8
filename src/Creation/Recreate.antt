-- ===== src/Creation/Recreate.antt =====
-- pulp-cell/recreate_core.go: an approved replacement is created before the old runtime is retired.
-- The digest of the immutable specification (SHA-256 of its JSON) is a parameter.
pub mod Receipts
use Prim.Native.String.{len}
use bananagine.Prelude.{
  String, true, not, ◌||◌, string_eq, nat_eq, int_eq, ℤ, pos, ◌==◌, Option, none, some, ◌≡◌, refl,
  arith, eq_iff, if◌then◌else◌, inl, inr, Bool-cases, Option-cases, ap, sym, ◌∙◌, some_injective,
}
use bananagine.Map.{Map, get, put, get-put_self}
use bananagine.Text.Strings.{to_lower}
use bananagine.Text.Identity.{valid_recreate_token, valid_fleet_identity}
use bananagine.Service.{Result, ok, err, Result-cases, ok_injective}
use bananagine.Allocation.Ports.Pools
use bananagine.Allocation.Ips
use bananagine.Allocation.Capacity
use bananagine.Allocation.Capacity.{Float64}
use bananagine.Orchestration.{
  CreateServerRequest, RecreateServerRequestV1, RecreateServerReceiptV1, Server,
}
use bananagine.Creation.Host.{DockerError, Host, is_docker_not_found}
use bananagine.Creation.Core.{Node, CreationCore, CreationResult, CreationError, create}

module _ (f : Float64) (h : Host f) where
  pub record Replay : Type 0 where
    pub spec_digest : String
    pub receipt : RecreateServerReceiptV1 f

  pub record Recreator : Type 0 where
    pub node : Node f h
    pub replays : Map String Replay

  pub data RecreateError : Type 0 where
    invalid_old_container : RecreateError
    unsupported_version : RecreateError
    invalid_identity : RecreateError
    invalid_replacement : RecreateError
    not_encoded : RecreateError
    digest_mismatch : RecreateError
    key_reused : RecreateError
    create_failed : CreationError f h → RecreateError
    old_not_retired : DockerError → RecreateError

  -- SHA-256 of the JSON of the version, the key, the receipt ID and the replacement; none where
  -- json.Marshal fails.
  abbrev pub Digest : Type 0
  Digest = ℤ → String → String → CreateServerRequest f → Option String

  -- recreateImmutableDigest.
  unfoldable pub immutable_digest : Digest → RecreateServerRequestV1 f → Option String
  immutable_digest digest r = digest r.version r.idempotency_key r.receipt_id r.replacement

  -- The checks before the digest, in their order; none if all pass.
  unfoldable pub identity_defect : String → RecreateServerRequestV1 f → Option RecreateError
  unfolding valid_fleet_identity valid_recreate_token
  identity_defect old_container_id r =
      if not (valid_fleet_identity old_container_id)
      then some invalid_old_container
      else if not (r.version == pos 1)
      then some unsupported_version
      else if not (valid_recreate_token r.idempotency_key)
          || not (valid_recreate_token r.receipt_id)
      then some invalid_identity
      else if not (valid_fleet_identity r.replacement.server_id)
          || r.replacement.server_id == old_container_id
      then some invalid_replacement
      else none

  -- All checks; the digest if they pass.
  unfoldable pub validate :
      Digest → String → RecreateServerRequestV1 f → Result RecreateError String
  unfolding identity_defect immutable_digest to_lower
  validate digest old_container_id r = elim (identity_defect old_container_id r) [
    | some e ↦ err e
    | none ↦ elim (immutable_digest digest r) [
      | none ↦ err not_encoded
      | some spec ↦
          if not (len r.immutable_spec_sha256 == 64)
            || not (to_lower r.immutable_spec_sha256 == to_lower spec)
          then err digest_mismatch
          else ok spec
    ]
  ]

  unfoldable pub refusal : Digest → String → RecreateServerRequestV1 f → Option RecreateError
  unfolding validate
  refusal digest old_container_id r = elim (validate digest old_container_id r) [
    | ok _ ↦ none
    | err e ↦ some e
  ]

  -- The old runtime's capacity, ports and address.
  unfoldable pub release_old : String → Node f h → Node f h
  release_old id n = record n {
    capacity = Capacity.release f n.capacity id;
    port_pools = Pools.release_by_server n.port_pools id;
    ipp = Ips.release_by_server n.ipp id;
  }

  receipt_of : String → RecreateServerRequestV1 f → Server f → RecreateServerReceiptV1 f
  receipt_of old_container_id r server = record {
    version = pos 1;
    idempotency_key = r.idempotency_key;
    receipt_id = r.receipt_id;
    old_container_id = old_container_id;
    replacement = server;
    replacement_ready = true;
    old_retired = true;
  }

  abbrev pub Reply : Type 0
  Reply = Result RecreateError (RecreateServerReceiptV1 f) × Recreator

  unfoldable pub finish :
      String → String → RecreateServerRequestV1 f → Server f → Map String Replay → Node f h → Reply
  unfolding release_old receipt_of
  finish spec old_container_id r server replays n =
      let receipt = receipt_of old_container_id r server in
      (
        ok receipt,
        record {
          node = release_old old_container_id n;
          replays =
              put replays r.idempotency_key (record { spec_digest = spec; receipt = receipt });
        },
      )

  -- After the creation: the old runtime is destroyed, and only then released.
  unfoldable pub retire_old :
      String → String → RecreateServerRequestV1 f → Server f → Map String Replay → Node f h → Reply
  unfolding finish
  retire_old spec old_container_id r server replays n =
      let (failed, w) = h.destroy old_container_id n.world in
      let n' : Node f h = record n { world = w } in
      elim failed [
        | none ↦ finish spec old_container_id r server replays n'
        | some e ↦
            if is_docker_not_found e
            then finish spec old_container_id r server replays n'
            else (err (old_not_retired e), record { node = n'; replays = replays })
      ]

  unfoldable pub after_create :
      String
      → String
      → RecreateServerRequestV1 f
      → Map String Replay
      → Result (CreationError f h) (CreationResult f h)
      → Node f h
      → Reply
  unfolding retire_old
  after_create spec old_container_id r replays (err e) n =
      (err (create_failed e), record { node = n; replays = replays })
  after_create spec old_container_id r replays (ok created) n =
      retire_old spec old_container_id r created.server replays n

  unfoldable pub recreate :
      Digest → CreationCore f h → Recreator → String → RecreateServerRequestV1 f → Reply
  unfolding after_create validate
  recreate digest core s old_container_id r =
      let (created, n) = create f h core r.replacement s.node in
      elim (validate digest old_container_id r) [
        | err e ↦ (err e, s)
        | ok spec ↦ elim (get s.replays r.idempotency_key) [
          | some replay ↦
              if not (replay.spec_digest == spec)
              then (err key_reused, s)
              else (ok replay.receipt, s)
          | none ↦ after_create spec old_container_id r s.replays created n
        ]
      ]
