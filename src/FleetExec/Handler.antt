-- ===== src/FleetExec/Handler.antt =====
-- The exec-v2 handler, its receipts and the files that hold them. Docker, the files, JSON and SHA-256
-- are parameters (`ExecHost`); reading a file changes nothing. The lock is not modelled: a call is
-- one step.
use Prim.Native.String.{◌++◌}
use bananagine.Prelude.{
  ℕ, String, Bool, false, not, ◌||◌, string_eq, ◌==◌, Option, none, some, List, if◌then◌else◌,
}
use bananagine.Service.{Result, ok, err}
use bananagine.Text.Identity.{valid_fleet_identity, valid_fleet_effect_identity}
use bananagine.Creation.Host.{DockerError, is_docker_not_found}
use bananagine.FleetExec.Request.{ExecRequest}

pub record Receipt : Type 0 where
  pub idempotency_key : String
  pub effect_id : String
  pub server_id : String
  pub node_id : String
  pub container_id : String
  pub request_sha256 : String
  pub response : String

-- `get` and `get_owned` answer the ID of the container, none for a nil server. The errors of `mkdir_all`,
-- `write` and `rename` are told apart from success only. `name_of` is fleetReceiptName;
-- a `Wire` is the content of a file.
pub record ExecHost : Type 1 where
  pub World : Type 0
  pub Wire : Type 0
  pub get : String → World → Result DockerError (Option String) × World
  pub get_owned : String → World → Result DockerError (Option String) × World
  pub exec : String → List String → World → Result DockerError String × World
  pub read : String → World → Result Bool Wire
  pub mkdir_all : String → World → Bool × World
  pub write : String → Wire → World → Bool × World
  pub rename : String → String → World → Bool × World
  pub encode_receipt : Receipt → Option Wire
  pub decode_receipt : Wire → Option Receipt
  pub encode_response : String → Option String
  pub digest : String → String → ExecRequest → Option String
  pub name_of : String → String

-- The status and the message of an error, or the body of a success.
pub data Answer : Type 0 where
  failed : ℕ → String → Answer
  responded : String → Answer

-- A call: the container of the path, the two headers, the decoded body.
pub record Call : Type 0 where
  pub container_id : String
  pub idempotency_key : String
  pub effect_id : String
  pub request : ExecRequest

abbrev pub receipt_dir : String
receipt_dir = "fleet-exec-v2-receipts"

module _ (h : ExecHost) where
  open h use {World, Wire}

  unfoldable pub receipt_path : String → String
  receipt_path key = receipt_dir ++ "/" ++ h.name_of key ++ ".json"

  -- A receipt without a response is none that the handler wrote.
  unfoldable pub checked : Option Receipt → Result (Unit {0}) (Option Receipt)
  checked none = err tt
  checked (some receipt) = if receipt.response == "" then err tt else ok (some receipt)

  -- The error of `read` says whether the file is missing.
  unfoldable pub loaded : Result Bool Wire → Result (Unit {0}) (Option Receipt)
  unfolding checked
  loaded (err missing) = if missing then ok none else err tt
  loaded (ok wire) = checked (h.decode_receipt wire)

  unfoldable pub load_receipt : String → World → Result (Unit {0}) (Option Receipt)
  unfolding loaded
  load_receipt path w = loaded (h.read path w)

  -- Whether the receipt was stored: written beside its place and renamed into it.
  unfoldable pub store_receipt : String → String → Receipt → World → Bool × World
  store_receipt path effect_id receipt w = elim (h.encode_receipt receipt) [
    | none ↦ (false, w)
    | some wire ↦
        let temporary = path ++ "." ++ h.name_of effect_id ++ ".tmp" in
        let (made, w1) = h.mkdir_all receipt_dir w in
        let (written, w2) = h.write temporary wire w1 in
        let (renamed, w3) = h.rename temporary path w2 in
        if not made then (false, w1) else if not written then (false, w2) else (renamed, w3)
  ]

  unfoldable pub receipt_of : Call → String → String → Receipt
  receipt_of c sha response = record {
    idempotency_key = c.idempotency_key;
    effect_id = c.effect_id;
    server_id = c.request.server_id;
    node_id = c.request.node_id;
    container_id = c.container_id;
    request_sha256 = sha;
    response = response;
  }

  abbrev docker_failed : DockerError → String → Answer
  docker_failed e message =
      if is_docker_not_found e then failed 404 "server not found" else failed 500 message

  -- After the command: the receipt is stored before the answer.
  unfoldable pub settle : Call → String → Result DockerError String → World → Answer × World
  unfolding receipt_of receipt_path store_receipt is_docker_not_found
  settle c sha (err e) w = (docker_failed e "runtime exec unavailable", w)
  settle c sha (ok output) w = elim (h.encode_response output) [
    | none ↦ (failed 500 "encode exec-v2 response", w)
    | some response ↦
        let (stored, w') =
          store_receipt (receipt_path c.idempotency_key) c.effect_id (receipt_of c sha response)
            w in
        if stored
        then (responded response, w')
        else (failed 500 "persist exec-v2 idempotency receipt", w')
  ]

  unfoldable pub execute : Call → String → World → Answer × World
  unfolding settle
  execute c sha w =
      let (output, w') = h.exec c.container_id c.request.cmd w in settle c sha output w'

  -- The container that the logical server ID owns has to be the one of the path.
  abbrev pub is_container : String → Option String → Bool
  is_container id none = false
  is_container id (some other) = other == id

  unfoldable pub owned_answered :
      Call → String → Option String → Result DockerError (Option String) → World → Answer × World
  unfolding execute is_docker_not_found
  owned_answered c sha server (err e) w = (docker_failed e "scoped server lookup unavailable", w)
  owned_answered c sha server (ok owned) w =
      if not (is_container c.container_id server) || not (is_container c.container_id owned)
      then (failed 409 "server identity does not match container", w)
      else execute c sha w

  unfoldable pub got : Call → String → Result DockerError (Option String) → World → Answer × World
  unfolding owned_answered is_docker_not_found
  got c sha (err e) w = (docker_failed e "scoped runtime lookup unavailable", w)
  got c sha (ok server) w =
      let (owned, w') = h.get_owned c.request.server_id w in owned_answered c sha server owned w'

  -- Whether a receipt belongs to the call.
  unfoldable pub same_call : Receipt → Call → String → Bool
  same_call r c sha = not (
      not (r.idempotency_key == c.idempotency_key)
      || not (r.effect_id == c.effect_id)
      || not (r.server_id == c.request.server_id)
      || not (r.node_id == c.request.node_id)
      || not (r.container_id == c.container_id)
      || not (r.request_sha256 == sha))

  unfoldable pub with_digest : Call → String → World → Answer × World
  unfolding load_receipt receipt_path got same_call
  with_digest c sha w =
      let (server, w') = h.get c.container_id w in
      elim (load_receipt (receipt_path c.idempotency_key) w) [
        | err _ ↦ (failed 500 "exec-v2 idempotency receipt unavailable", w)
        | ok found ↦ elim found [
          | some receipt ↦
              if not (same_call receipt c sha)
              then (
                failed 409 "idempotency key already belongs to a different exec-v2 operation",
                w,
              )
              else (responded receipt.response, w)
          | none ↦ got c sha server w'
        ]
      ]

  -- The handler, from the decoded body on.
  unfoldable pub handle : Call → World → Answer × World
  unfolding with_digest valid_fleet_identity valid_fleet_effect_identity
  handle c w =
      if not (valid_fleet_identity c.container_id)
      then (failed 400 "invalid container identity", w)
      else if not (valid_fleet_effect_identity c.idempotency_key)
          || not (valid_fleet_effect_identity c.effect_id)
      then (failed 400 "valid idempotency and effect identities are required", w)
      else (elim (h.digest c.container_id c.effect_id c.request) [
        | none ↦ (failed 400 "invalid exec-v2 request", w)
        | some sha ↦ with_digest c sha w
      ])
