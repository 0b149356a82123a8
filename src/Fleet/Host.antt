-- ===== src/Fleet/Host.antt =====
-- What the three handlers share: the host, the receipts, and the stages that each handler repeats
-- around its own work. Docker, the files, JSON, SHA-256 and the clock are parameters; reading a file
-- changes nothing.
pub mod Replay
use Prim.Native.String.{◌++◌}
use bananagine.Prelude.{
  ℕ, String, ℤ, Bool, true, false, not, ◌||◌, string_eq, ◌==◌, Option, none, some, List, [], ◌∷◌,
  if◌then◌else◌,
}
use bananagine.Service.{Result, ok, err}
use bananagine.Creation.Host.{DockerError, is_docker_not_found}
use bananagine.Text.Identity.{valid_fleet_identity, valid_fleet_effect_identity}

pub record Receipt : Type 0 where
  pub idempotency_key : String
  pub effect_id : String
  pub action : String
  pub container_id : String
  pub request_sha256 : String
  pub response : String

-- The object that every handler answers with.
pub record Response : Type 0 where
  pub id : String
  pub server_id : String
  pub node_id : String
  pub container_id : String
  pub status : String

-- The status and the message of an error, the body of a success, or a panic.
pub data Answer : Type 0 where
  failed : ℕ → String → Answer
  responded : String → Answer
  crashed : Answer

-- `get` and `get_owned` answer the ID of the container, none for a nil server; `exec` and `restart` answer
-- their error, if any; `read` says in its error whether the file is missing. A `Wire` is the content
-- of a file, `name_of` is fleetReceiptName, `sha256` its digest in hexadecimal, and `quote` is the
-- verb %q.
pub record FleetHost : Type 1 where
  pub World : Type 0
  pub Wire : Type 0
  pub get : String → World → Result DockerError (Option String) × World
  pub get_owned : String → World → Result DockerError (Option String) × World
  pub exec : String → List String → World → Option DockerError × World
  pub restart : String → World → Option DockerError × World
  pub read : String → World → Result Bool Wire
  pub mkdir_all : String → World → Bool × World
  pub write : String → Wire → World → Bool × World
  pub rename : String → String → World → Bool × World
  pub unix_now : World → ℤ
  pub encode_receipt : Receipt → Option Wire
  pub decode_receipt : Wire → Option Receipt
  pub encode_response : Response → Option String
  pub sha256 : String → String
  pub name_of : String → String
  pub quote : String → String

-- What a receipt is compared with.
pub record Operation : Type 0 where
  pub idempotency_key : String
  pub effect_id : String
  pub action : String
  pub container_id : String
  pub request_sha256 : String

abbrev pub receipt_dir : String
receipt_dir = "fleet-lifecycle-receipts"

-- The container of the path is the one that was found.
abbrev pub is_container : String → Option String → Bool
is_container id none = false
is_container id (some other) = other == id

-- Whether a receipt belongs to the operation.
unfoldable pub same_operation : Receipt → Operation → Bool
same_operation r o = not (
    not (r.idempotency_key == o.idempotency_key)
    || not (r.effect_id == o.effect_id)
    || not (r.action == o.action)
    || not (r.container_id == o.container_id)
    || not (r.request_sha256 == o.request_sha256))

unfoldable pub receipt_of : Operation → String → Receipt
receipt_of o response = record {
  idempotency_key = o.idempotency_key;
  effect_id = o.effect_id;
  action = o.action;
  container_id = o.container_id;
  request_sha256 = o.request_sha256;
  response = response;
}

-- The answer to a failed lookup of the container.
unfoldable pub lookup_failed : DockerError → String → Answer
unfolding is_docker_not_found
lookup_failed e message =
    if is_docker_not_found e then failed 404 "server not found" else failed 500 message

module _ (h : FleetHost) where
  open h use {World, Wire}

  unfoldable pub receipt_path : String → String
  receipt_path key = receipt_dir ++ "/" ++ h.name_of key ++ ".json"

  unfoldable pub checked : Option Receipt → Result (Unit {0}) (Option Receipt)
  checked none = err tt
  checked (some receipt) = if receipt.response == "" then err tt else ok (some receipt)

  unfoldable pub loaded : Result Bool Wire → Result (Unit {0}) (Option Receipt)
  unfolding checked
  loaded (err missing) = if missing then ok none else err tt
  loaded (ok wire) = checked (h.decode_receipt wire)

  unfoldable pub load_receipt : String → World → Result (Unit {0}) (Option Receipt)
  unfolding loaded
  load_receipt path w = loaded (h.read path w)

  unfoldable pub store_receipt : String → String → Receipt → World → Bool × World
  store_receipt path effect_id receipt w = elim (h.encode_receipt receipt) [
    | none ↦ (false, w)
    | some wire ↦
        let temporary = path ++ "." ++ h.name_of effect_id ++ ".tmp" in
        let (made, w1) = h.mkdir_all receipt_dir w in
        let (written, w2) = h.write temporary wire w1 in
        let (renamed, w3) = h.rename temporary path w2 in
        if not made then (false, w1) else if not written then (false, w2) else (renamed, w3)
  ]

  -- The end of a handler: the receipt is stored before the answer.
  unfoldable pub finish : Operation → String → Response → World → Answer × World
  unfolding receipt_of receipt_path store_receipt
  finish o unencoded response w = elim (h.encode_response response) [
    | none ↦ (failed 500 unencoded, w)
    | some wire ↦
        let (stored, w') =
          store_receipt (receipt_path o.idempotency_key) o.effect_id (receipt_of o wire) w in
        if stored then (responded wire, w') else (failed 500 "persist idempotency receipt", w')
  ]

  -- A stored receipt answers its operation; without one the work is done.
  unfoldable pub replay_or : Operation → String → (World → Answer × World) → World → Answer × World
  unfolding load_receipt receipt_path same_operation
  replay_or o mismatch run w =
      let done = run w in
      elim (load_receipt (receipt_path o.idempotency_key) w) [
        | err _ ↦ (failed 500 "idempotency receipt unavailable", w)
        | ok found ↦ elim found [
          | some receipt ↦
              if not (same_operation receipt o)
              then (failed 409 mismatch, w)
              else (responded receipt.response, w)
          | none ↦ done
        ]
      ]

  -- The checks before: the container's ID, the body and the two headers. `decoded` is what the
  -- handler makes of the body; none stands for a panic.
  unfoldable pub admitted :
      {R : Type 0}
      → String
      → String
      → String
      → Option (Result String R)
      → (R → World → Answer × World)
      → World
      → Answer × World
  unfolding valid_fleet_identity valid_fleet_effect_identity
  admitted container_id idempotency_key effect_id decoded run w =
      if not (valid_fleet_identity container_id)
      then (failed 400 "invalid container identity", w)
      else (elim decoded [
        | none ↦ (crashed, w)
        | some body ↦ elim body [
          | err message ↦ (failed 400 message, w)
          | ok request ↦
              let rest = run request w in
              if not (valid_fleet_effect_identity idempotency_key)
                || not (valid_fleet_effect_identity effect_id)
              then (failed 400 "valid idempotency and effect identities are required", w)
              else rest
        ]
      ])

  -- Commands in their order, up to the first that fails.
  unfoldable pub exec_all : String → String → List (List String) → World → Option String × World
  exec_all container_id context [] w = (none, w)
  exec_all container_id context (command ∷ rest) w =
      let (failure, w') = h.exec container_id command w in
      elim failure [
        | some e ↦ (some (context ++ e.message), w')
        | none ↦ exec_all container_id context rest w'
      ]

  -- The stages between: the digest of the body, the receipt of the key, and the work.
  unfoldable pub keyed :
      Option String
      → String
      → String
      → (String → Operation)
      → String
      → (Operation → World → Answer × World)
      → World
      → Answer × World
  unfolding replay_or
  keyed marshalled invalid domain operation mismatch work w = elim marshalled [
    | none ↦ (failed 400 invalid, w)
    | some wire ↦ let o = operation (h.sha256 (domain ++ wire)) in replay_or o mismatch (work o) w
  ]
