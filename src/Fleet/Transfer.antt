-- ===== src/Fleet/Transfer.antt =====
-- fleetWorldTransferHandler and what it calls. `fields` are the names in the body, none where it is no
-- object, and `bound` is what a strict decoding of the body gives. url.Parse is a parameter.
pub mod Replay
use Prim.Native.String.{◌++◌, len}
use bananagine.Prelude.{
  ℕ, nat_eq, ltb, String, ℤ, pos, int_eq, leb_ℤ, Bool, true, false, not, ◌||◌, string_eq, ◌==◌,
  Option, none, some, List, [], ◌∷◌, if◌then◌else◌, length,
}
use bananagine.Service.{Result, ok, err}
use bananagine.Text.{trim_space}
use bananagine.Text.Strings.{to_lower}
use bananagine.Text.Identity.{valid_fleet_identity}
use bananagine.Creation.Host.{DockerError}
use bananagine.Fleet.Host.{
  FleetHost, Answer, failed, Operation, Response, is_container, lookup_failed, finish, admitted,
  keyed,
}
use bananagine.Fleet.Tokens.{valid_fleet_token, valid_fleet_object_key, is_hex}
use bananagine.Fleet.Lifecycle.{first_other}

abbrev pub contract : String
contract = "world-transfer.v1"

pub record TransferObject : Type 0 where
  pub namespace : String
  pub key : String
  pub generation : ℕ
  pub sha256 : String
  pub size_bytes : ℤ

pub record TransferReference : Type 0 where
  pub url : String
  pub expires_at_unix : ℤ

pub record TransferRequest : Type 0 where
  pub version : String
  pub server_id : String
  pub node_id : String
  pub object : TransferObject
  pub transfer : TransferReference

-- The parts of url.URL that are read.
pub record Url : Type 0 where
  pub scheme : String
  pub host : String
  pub has_user : Bool
  pub fragment : String

abbrev pub ParseUrl : Type 0
ParseUrl = String → Option Url

unfoldable pub identity_defect : ℤ → TransferRequest → Bool
unfolding valid_fleet_identity valid_fleet_token valid_fleet_object_key to_lower
identity_defect now r =
    not (r.version == contract)
    || not (valid_fleet_identity r.server_id)
    || not (valid_fleet_identity r.node_id)
    || not (valid_fleet_token r.object.namespace 256)
    || not (valid_fleet_object_key r.object.key)
    || r.object.generation == 0
    || leb_ℤ r.object.size_bytes (pos 0)
    || not (len r.object.sha256 == 64)
    || not (r.object.sha256 == to_lower r.object.sha256)
    || leb_ℤ r.transfer.expires_at_unix now
    || len r.transfer.url == 0
    || ltb 8192 (len r.transfer.url)

abbrev pub url_defect : Option Url → Bool
url_defect none = true
url_defect (some u) =
    not (u.scheme == "https") || u.host == "" || u.has_user || not (u.fragment == "")

-- The message of what is wrong, if anything.
unfoldable pub validate_fleet_world_transfer_request :
    ParseUrl → ℤ → TransferRequest → Option String
unfolding identity_defect is_hex
validate_fleet_world_transfer_request parse now r =
    if identity_defect now r
    then some "typed world transfer identity is invalid"
    else if not (is_hex r.object.sha256)
    then some "typed world transfer digest is invalid"
    else if url_defect (parse r.transfer.url)
    then some "typed world transfer reference is invalid"
    else none

abbrev pub field_names : List String
field_names = "version" ∷ "server_id" ∷ "node_id" ∷ "object" ∷ "transfer" ∷ []

unfoldable pub decode_fleet_world_transfer_request :
    (String → String)
    → ParseUrl
    → ℤ
    → Option (List String)
    → Option TransferRequest
    → Result String TransferRequest
unfolding first_other validate_fleet_world_transfer_request
decode_fleet_world_transfer_request quote parse now none bound = err "valid JSON body is required"
decode_fleet_world_transfer_request quote parse now (some fields) bound =
    if not (length fields == 5)
    then err "world transfer requires exactly version, server_id, node_id, object, and transfer"
    else (elim (first_other field_names fields) [
      | some field ↦ err ("payload field " ++ quote field ++ " is not allowed")
      | none ↦ elim bound [
        | none ↦ err "invalid world transfer payload"
        | some request ↦ elim (validate_fleet_world_transfer_request parse now request) [
          | some message ↦ err message
          | none ↦ ok request
        ]
      ]
    ])

-- The call of a route: the action, the path, the headers and the body.
pub record TransferCall : Type 0 where
  pub action : String
  pub id : String
  pub idempotency_key : String
  pub effect_id : String
  pub fields : Option (List String)
  pub bound : Option TransferRequest

abbrev pub flag_of : String → String
flag_of action =
    if action == "world-upload-apply" then "/data/.sessions-upload" else "/data/.sessions-restore"

abbrev pub status_of : String → String
status_of action = if action == "world-upload-apply" then "replacing" else "restoring"

-- The URL is an argument of the shell, not a part of its script.
abbrev pub stage_command : String → String → List String
stage_command flag url = "sh" ∷ "-c" ∷ ("printf '%s' \"$1\" > " ++ flag) ∷ "--" ∷ url ∷ []

abbrev pub domain : TransferCall → String
domain c = "world-transfer\0" ++ c.action ++ "\0" ++ trim_space c.id ++ "\0"

abbrev pub operation : TransferCall → String → Operation
operation c sha = record {
  idempotency_key = c.idempotency_key;
  effect_id = c.effect_id;
  action = "world-" ++ c.action;
  container_id = trim_space c.id;
  request_sha256 = sha;
}

module _ (h : FleetHost) (marshal : TransferRequest → Option String) (parse : ParseUrl) where
  open h use {World}

  unfoldable pub restarted :
      Operation → TransferRequest → Option DockerError → World → Answer × World
  unfolding finish
  restarted o request (some e) w = (failed 422 ("restart typed world transfer: " ++ e.message), w)
  restarted o request none w =
      finish h o "encode world transfer response"
        (record {
          id = o.container_id;
          server_id = request.server_id;
          node_id = request.node_id;
          container_id = o.container_id;
          status = status_of o.action;
        })
        w

  -- The reference is staged before the runtime is restarted.
  unfoldable pub staged : Operation → TransferRequest → Option DockerError → World → Answer × World
  unfolding restarted
  staged o request (some e) w = (failed 422 ("stage typed world transfer: " ++ e.message), w)
  staged o request none w =
      let (failure, w') = h.restart o.container_id w in restarted o request failure w'

  unfoldable pub execute : Operation → TransferRequest → World → Answer × World
  unfolding staged
  execute o request w =
      let (failure, w') =
        h.exec o.container_id (stage_command (flag_of o.action) request.transfer.url) w in
      staged o request failure w'

  unfoldable pub owned_answered :
      Operation
      → TransferRequest
      → Option String
      → Result DockerError (Option String)
      → World
      → Answer × World
  unfolding execute lookup_failed
  owned_answered o request server (err e) w =
      (lookup_failed e "scoped server lookup unavailable", w)
  owned_answered o request server (ok owned) w =
      let rest = execute o request w in
      if not (is_container o.container_id server) || not (is_container o.container_id owned)
      then (failed 409 "server identity does not match container", w)
      else rest

  unfoldable pub got :
      Operation → TransferRequest → Result DockerError (Option String) → World → Answer × World
  unfolding owned_answered lookup_failed
  got o request (err e) w = (lookup_failed e "scoped runtime lookup unavailable", w)
  got o request (ok server) w =
      let (owned, w') = h.get_owned request.server_id w in owned_answered o request server owned w'

  unfoldable pub work : TransferRequest → Operation → World → Answer × World
  unfolding got
  work request o w = let (server, w') = h.get o.container_id w in got o request server w'

  unfoldable pub run : TransferCall → TransferRequest → World → Answer × World
  unfolding keyed work
  run c request =
      keyed h (marshal request) "invalid typed world transfer" (domain c) (operation c)
        "idempotency key already belongs to a different world transfer" (work request)

  -- The clock is read where the body is validated.
  unfoldable pub fleet_world_transfer_handler : TransferCall → World → Answer × World
  unfolding admitted run trim_space decode_fleet_world_transfer_request
  fleet_world_transfer_handler c w =
      admitted h (trim_space c.id) c.idempotency_key c.effect_id
        (some (decode_fleet_world_transfer_request h.quote parse (h.unix_now w) c.fields c.bound))
        (run c) w
