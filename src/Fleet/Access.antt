-- ===== src/Fleet/Access.antt =====
-- fleetAccessApplyHandler and what it calls. `fields` are the names in the body, none where it is no
-- object, and `bound` is what a strict decoding of the body gives.
pub mod Replay
pub mod Validation
pub mod Commands
pub mod Admitted
use Prim.Native.String.{◌++◌, len}
use bananagine.Prelude.{
  ℕ, nat_eq, ltb, String, Bool, true, false, not, ◌||◌, ◌&&◌, string_eq, ◌==◌, Option, none, some,
  List, [], ◌∷◌, if◌then◌else◌, length,
}
use bananagine.Service.{Result, ok, err, ◌>>=◌}
use bananagine.Text.{trim_space}
use bananagine.Text.Identity.{valid_fleet_identity}
use bananagine.Creation.Host.{DockerError}
use bananagine.Fleet.Host.{
  FleetHost, Answer, failed, Operation, Response, is_container, lookup_failed, finish, admitted,
  keyed, exec_all,
}
use bananagine.Fleet.Tokens.{one_of, is_player_name, is_uuid, no_control}
use bananagine.Fleet.Lifecycle.{first_other, gamemodes}

abbrev pub max_commands : ℕ
max_commands = 100

pub record PlayerIdentity : Type 0 where
  pub name : String
  pub uuid : String
  pub platform : String

pub record AccessMutation : Type 0 where
  pub kind : String
  pub action : String
  pub entries : List PlayerIdentity

pub record PlayerAction : Type 0 where
  pub action : String
  pub target : Option PlayerIdentity
  pub value : String
  pub reason_code : String
  pub reason_message : String

pub record AccessRequest : Type 0 where
  pub server_id : String
  pub node_id : String
  pub operation : String
  pub generation : ℕ
  pub access : Option AccessMutation
  pub player : Option PlayerAction

unfoldable pub valid_player : PlayerIdentity → Bool
unfolding is_player_name is_uuid
valid_player value =
    not (
      not (is_player_name value.name) || not (is_uuid value.uuid) || not (value.platform == "java"))

unfoldable pub all_players : List PlayerIdentity → Bool
unfolding valid_player
all_players [] = true
all_players (entry ∷ rest) = valid_player entry && all_players rest

-- The message of what is wrong, if anything.
unfoldable pub access_defect : AccessMutation → Option String
unfolding one_of all_players
access_defect value =
    if not (one_of value.kind ("whitelist" ∷ "operators" ∷ "bans" ∷ []))
      || not (one_of value.action ("add" ∷ "remove" ∷ []))
      || length value.entries == 0
      || ltb max_commands (length value.entries)
    then some "typed access mutation is invalid"
    else if all_players value.entries
    then none
    else some "typed player identity is invalid"

abbrev pub targeted : List String
targeted = "kick" ∷ "ban" ∷ "pardon" ∷ "op" ∷ "deop" ∷ "gamemode" ∷ []

abbrev pub global : List String
global = "time" ∷ "weather" ∷ "announce" ∷ []

abbrev pub times : List String
times = "day" ∷ "noon" ∷ "night" ∷ "midnight" ∷ []

abbrev pub weathers : List String
weathers = "clear" ∷ "rain" ∷ "thunder" ∷ []

unfoldable pub reason_defect : PlayerAction → Option String
unfolding no_control
reason_defect value =
    if len value.reason_code == 0
      || ltb 64 (len value.reason_code)
      || not (no_control value.reason_code)
      || ltb 256 (len value.reason_message)
      || not (no_control value.reason_message)
    then some "player reason is invalid"
    else none

unfoldable pub target_defect : PlayerAction → Option String
unfolding one_of valid_player
target_defect value =
    if one_of value.action targeted
    then (elim value.target [
      | none ↦ some "player action target is required"
      | some target ↦ if valid_player target then none else some "typed player identity is invalid"
    ])
    else if one_of value.action global
    then (elim value.target [
      | none ↦ none
      | some _ ↦ some "global player action cannot include target"
    ])
    else some "player action is not allowlisted"

unfoldable pub value_defect : PlayerAction → Option String
unfolding one_of no_control
value_defect value =
    if value.action == "gamemode" && not (one_of value.value gamemodes)
    then some "gamemode is not allowed"
    else if value.action == "time" && not (one_of value.value times)
    then some "time is not allowed"
    else if value.action == "weather" && not (one_of value.value weathers)
    then some "weather is not allowed"
    else if value.action == "announce"
        && (value.value == "" || ltb 256 (len value.value) || not (no_control value.value))
    then some "announcement is invalid"
    else if not (value.action == "gamemode")
        && not (value.action == "time")
        && not (value.action == "weather")
        && not (value.action == "announce")
        && not (value.value == "")
    then some "player action value is not allowed"
    else none

-- The first of two defects.
abbrev pub or_defect : Option String → Option String → Option String
or_defect none d = d
or_defect (some message) d = some message

unfoldable pub player_defect : PlayerAction → Option String
unfolding reason_defect target_defect value_defect
player_defect value =
    or_defect (reason_defect value) (or_defect (target_defect value) (value_defect value))

abbrev pub is_nil {ℓ} : {A : Type ℓ} → Option A → Bool
is_nil none = true
is_nil (some _) = false

abbrev pub same_bool : Bool → Bool → Bool
same_bool true b = b
same_bool false b = not b

-- What is wrong with the payload that the operation names, if anything; none stands for the panic of a
-- nil pointer.
unfoldable pub payload_defect : AccessRequest → Option (Option String)
unfolding access_defect player_defect
payload_defect request =
    if request.operation == "access"
    then (elim request.access [ none ↦ none | some access ↦ some (access_defect access) ])
    else (elim request.player [ none ↦ none | some player ↦ some (player_defect player) ])

abbrev pub field_names : List String
field_names = "server_id" ∷ "node_id" ∷ "operation" ∷ "generation" ∷ "access" ∷ "player" ∷ []

abbrev checked : AccessRequest → Option (Option String) → Option (Result String AccessRequest)
checked request none = none
checked request (some none) = some (ok request)
checked request (some (some message)) = some (err message)

unfoldable pub decode_fleet_access_apply_request :
    (String → String)
    → Option (List String)
    → Option AccessRequest
    → Option (Result String AccessRequest)
unfolding first_other valid_fleet_identity payload_defect
decode_fleet_access_apply_request quote none bound = some (err "valid JSON body is required")
decode_fleet_access_apply_request quote (some fields) bound =
    elim (first_other field_names fields) [
      | some field ↦ some (err ("payload field " ++ quote field ++ " is not allowed"))
      | none ↦ elim bound [
        | none ↦ some (err "invalid access payload")
        | some request ↦
            if not (valid_fleet_identity request.server_id)
              || not (valid_fleet_identity request.node_id)
              || request.generation == 0
            then some (err "valid server, node, and generation are required")
            else if same_bool (request.operation == "access") (request.operation == "player_action")
                || same_bool (is_nil request.access) (is_nil request.player)
            then some (err "exactly one typed access or player operation is required")
            else checked request (payload_defect request)
      ]
    ]

-- The console's verb for a kind of list and an action.
unfoldable pub access_verb : String → String → String
access_verb kind action =
    if kind == "whitelist"
    then if action == "add" then "whitelist add " else "whitelist remove "
    else if kind == "operators"
    then if action == "add" then "op " else "deop "
    else if kind == "bans"
    then if action == "add" then "ban " else "pardon "
    else ""

abbrev pub rcon : String → List String
rcon text = "rcon" ∷ text ∷ []

unfoldable pub access_commands : String → String → List PlayerIdentity → List (List String)
unfolding access_verb
access_commands kind action [] = []
access_commands kind action (entry ∷ rest) =
    rcon (access_verb kind action ++ entry.name) ∷ access_commands kind action rest

unfoldable pub fleet_optional_reason : String → String
fleet_optional_reason message = if message == "" then "" else " " ++ message

abbrev pub name_of_target : Option PlayerIdentity → String
name_of_target none = ""
name_of_target (some target) = target.name

-- `json_text` is json.Marshal of {"text": value}.
unfoldable pub player_command : (String → String) → PlayerAction → Option String
unfolding fleet_optional_reason
player_command json_text p =
    let target = name_of_target p.target in
    if p.action == "kick"
    then some ("kick " ++ target ++ fleet_optional_reason p.reason_message)
    else if p.action == "ban"
    then some ("ban " ++ target ++ fleet_optional_reason p.reason_message)
    else if p.action == "pardon"
    then some ("pardon " ++ target)
    else if p.action == "op"
    then some ("op " ++ target)
    else if p.action == "deop"
    then some ("deop " ++ target)
    else if p.action == "gamemode"
    then some ("gamemode " ++ p.value ++ " " ++ target)
    else if p.action == "time"
    then some ("time set " ++ p.value)
    else if p.action == "weather"
    then some ("weather " ++ p.value)
    else if p.action == "announce"
    then some ("tellraw @a " ++ json_text p.value)
    else none

-- None stands for the panic of a nil player.
unfoldable pub fleet_access_apply_commands :
    (String → String) → AccessRequest → Option (Result String (List (List String)))
unfolding access_commands player_command
fleet_access_apply_commands json_text request = elim request.access [
  | some access ↦ some (ok (access_commands access.kind access.action access.entries))
  | none ↦ elim request.player [
    | none ↦ none
    | some player ↦ elim (player_command json_text player) [
      | none ↦ some (err "player action is not allowlisted")
      | some text ↦ some (ok (rcon text ∷ []))
    ]
  ]
]

-- The call of the route: the path, the headers and the body.
pub record AccessCall : Type 0 where
  pub id : String
  pub idempotency_key : String
  pub effect_id : String
  pub fields : Option (List String)
  pub bound : Option AccessRequest

abbrev pub domain : AccessCall → String
domain c = "access-apply\0" ++ trim_space c.id ++ "\0"

abbrev pub operation : AccessCall → String → Operation
operation c sha = record {
  idempotency_key = c.idempotency_key;
  effect_id = c.effect_id;
  action = "access-apply";
  container_id = trim_space c.id;
  request_sha256 = sha;
}

module _ (h : FleetHost) (marshal : AccessRequest → Option String)
    (json_text : String → String) where
  open h use {World}

  unfoldable pub executed : Operation → AccessRequest → Option String → World → Answer × World
  unfolding finish
  executed o request (some message) w = (failed 422 message, w)
  executed o request none w =
      finish h o "encode access response"
        (record {
          id = o.container_id;
          server_id = request.server_id;
          node_id = request.node_id;
          container_id = o.container_id;
          status = "access_applied";
        })
        w

  unfoldable pub execute :
      Operation
      → AccessRequest
      → Option (Result String (List (List String)))
      → World
      → Answer × World
  unfolding executed exec_all
  execute o request none w = (Answer.crashed, w)
  execute o request (some (err message)) w = (failed 422 message, w)
  execute o request (some (ok commands)) w =
      let (failure, w') = exec_all h o.container_id "apply typed access operation: " commands w in
      executed o request failure w'

  unfoldable pub owned_answered :
      Operation → AccessRequest → Result DockerError (Option String) → World → Answer × World
  unfolding execute fleet_access_apply_commands
  owned_answered o request (err e) w = (failed 500 "scoped server lookup unavailable", w)
  owned_answered o request (ok owned) w =
      let rest = execute o request (fleet_access_apply_commands json_text request) w in
      if not (is_container o.container_id owned)
      then (failed 409 "server identity does not match container", w)
      else rest

  unfoldable pub got :
      Operation → AccessRequest → Result DockerError (Option String) → World → Answer × World
  unfolding owned_answered lookup_failed
  got o request (err e) w = (lookup_failed e e.message, w)
  got o request (ok server) w =
      let (owned, w') = h.get_owned request.server_id w in
      let rest = owned_answered o request owned w' in
      if not (is_container o.container_id server)
      then (failed 409 "container identity mismatch", w)
      else rest

  unfoldable pub work : AccessRequest → Operation → World → Answer × World
  unfolding got
  work request o w = let (server, w') = h.get o.container_id w in got o request server w'

  unfoldable pub run : AccessCall → AccessRequest → World → Answer × World
  unfolding keyed work
  run c request =
      keyed h (marshal request) "invalid access request" (domain c) (operation c)
        "idempotency key already belongs to a different operation" (work request)

  unfoldable pub fleet_access_apply_handler : AccessCall → World → Answer × World
  unfolding admitted run trim_space decode_fleet_access_apply_request
  fleet_access_apply_handler c =
      admitted h (trim_space c.id) c.idempotency_key c.effect_id
        (decode_fleet_access_apply_request h.quote c.fields c.bound) (run c)
