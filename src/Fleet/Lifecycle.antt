-- ===== src/Fleet/Lifecycle.antt =====
-- fleetLifecycleHandler and what it calls. `fields` are the names in the body, none where it is no
-- object, and `bound` is what the body binds to.
pub mod Replay
pub mod Console
use Prim.Native.String.{◌++◌}
use bananagine.Prelude.{
  ℕ, String, ℤ, pos, negsuc, int_eq, nat_eq, Bool, true, false, not, ◌||◌, ◌&&◌, string_eq, ◌==◌,
  Option, none, some, List, [], ◌∷◌, if◌then◌else◌, length,
}
use bananagine.Map.{Map}
use bananagine.Map.Sorting.{sort_keys}
use bananagine.Service.{Result, ok, err, ◌>>=◌}
use bananagine.Text.{trim_space}
use bananagine.Text.Strings.{has_prefix, trim_prefix}
use bananagine.Text.Identity.{valid_fleet_identity}
use bananagine.Allocation.Capacity.{Float64}
use bananagine.Resources.{entries}
use bananagine.Creation.Host.{DockerError}
use bananagine.Fleet.Host.{
  FleetHost, Answer, failed, Operation, Response, is_container, lookup_failed, finish, admitted,
  keyed, exec_all,
}
use bananagine.Fleet.Tokens.{one_of, valid_fleet_token, valid_fleet_rule_value}

abbrev pub difficulties : List String
difficulties = "peaceful" ∷ "easy" ∷ "normal" ∷ "hard" ∷ []

abbrev pub gamemodes : List String
gamemodes = "survival" ∷ "creative" ∷ "adventure" ∷ "spectator" ∷ []

-- The command of one setting.
unfoldable pub setting_command : (String → String) → String → String → Result String (List String)
unfolding one_of has_prefix trim_prefix valid_fleet_token valid_fleet_rule_value
setting_command quote key value =
    let rule = trim_prefix key "FLEET_GAMERULE_" in
    if key == "FLEET_SETTING_difficulty"
    then if not (one_of value difficulties)
      then err "difficulty is not allowed"
      else ok ("rcon" ∷ ("difficulty " ++ value) ∷ [])
    else if key == "FLEET_SETTING_gamemode" || key == "FLEET_SETTING_default_gamemode"
    then if not (one_of value gamemodes)
      then err "gamemode is not allowed"
      else ok ("rcon" ∷ ("defaultgamemode " ++ value) ∷ [])
    else if has_prefix key "FLEET_GAMERULE_"
    then if not (valid_fleet_token rule 64) || not (valid_fleet_rule_value value)
      then err "gamerule is not allowed"
      else ok ("rcon" ∷ ("gamerule " ++ rule ++ " " ++ value) ∷ [])
    else err ("runtime setting " ++ quote key ++ " is not allowed")

unfoldable pub commands_of :
    (String → String) → Map String String → Result String (List (List String))
unfolding setting_command
commands_of quote [] = ok []
commands_of quote ((key, value) ∷ rest) =
    let more = commands_of quote rest in
    setting_command quote key value >>= λ command. more >>= λ commands. ok (command ∷ commands)

-- In the order of the keys.
unfoldable pub fleet_reconfigure_commands :
    (String → String) → Map String String → Result String (List (List String))
unfolding commands_of sort_keys
fleet_reconfigure_commands quote env = commands_of quote (sort_keys env)

unfoldable pub fleet_lifecycle_status : String → String
fleet_lifecycle_status action =
    if action == "reconfigure"
    then "reconfigured"
    else if action == "suspend"
    then "suspended"
    else if action == "resume"
    then "resumed"
    else if action == "restart"
    then "restarted"
    else if action == "regenerate"
    then "regenerated"
    else if action == "config-apply"
    then "config_applied"
    else ""

abbrev pub is_restart : String → Bool
is_restart action = action == "restart" || action == "regenerate"

-- The first name that is not allowed.
unfoldable pub first_other : List String → List String → Option String
unfolding one_of
first_other allowed [] = none
first_other allowed (field ∷ rest) =
    let more = first_other allowed rest in if one_of field allowed then more else some field

-- The commands before a regeneration.
abbrev pub regenerate_commands : List (List String)
regenerate_commands =
    ("rcon" ∷ "save-off" ∷ [])
    ∷ ("rcon" ∷ "save-all flush" ∷ [])
    ∷ ("sh" ∷ "-c" ∷ "touch /data/.sessions-regen" ∷ [])
    ∷ []

abbrev pub is_negative : ℤ → Bool
is_negative (pos n) = false
is_negative (negsuc n) = true

module _ (f : Float64) where
  pub record FleetResources : Type 0 where
    pub cpu : f.Amount
    pub memory : ℤ

  pub record LifecycleRequest : Type 0 where
    pub server_id : String
    pub node_id : String
    pub resources : FleetResources
    pub env : Option (Map String String)

  -- `!= 0` on a float64 that JSON can hold.
  abbrev pub has_resources : LifecycleRequest → Bool
  has_resources request =
      f.gt request.resources.cpu f.zero
      || f.gt f.zero request.resources.cpu
      || not (request.resources.memory == pos 0)

  abbrev pub has_env : LifecycleRequest → Bool
  has_env request = elim (entries request.env) [ [] ↦ false | _ ∷ _ ↦ true ]

  unfoldable pub decode_identities : LifecycleRequest → Result String LifecycleRequest
  unfolding valid_fleet_identity
  decode_identities request =
      if not (valid_fleet_identity request.server_id) || not (valid_fleet_identity request.node_id)
      then err "valid server and node identities are required"
      else ok request

  unfoldable pub decode_restart :
      (String → String) → List String → Option LifecycleRequest → Result String LifecycleRequest
  unfolding first_other one_of decode_identities
  decode_restart quote fields bound =
      if not (length fields == 2)
        || not (one_of "server_id" fields)
        || not (one_of "node_id" fields)
      then err "restart and regenerate require exactly server_id and node_id"
      else (elim (first_other ("server_id" ∷ "node_id" ∷ []) fields) [
        | some field ↦ err ("payload field " ++ quote field ++ " is not allowed")
        | none ↦ elim bound [
          | none ↦ err "invalid lifecycle payload"
          | some request ↦ decode_identities request
        ]
      ])

  unfoldable pub decode_settings :
      (String → String) → List String → Option LifecycleRequest → Result String LifecycleRequest
  unfolding first_other decode_identities
  decode_settings quote fields bound =
      elim (first_other ("server_id" ∷ "node_id" ∷ "resources" ∷ "env" ∷ []) fields) [
        | some field ↦ err ("payload field " ++ quote field ++ " is not allowed")
        | none ↦ elim bound [
          | none ↦ err "invalid lifecycle payload"
          | some request ↦ decode_identities request >>= λ r.
              if f.gt f.zero r.resources.cpu || is_negative r.resources.memory
              then err "resource limits cannot be negative"
              else ok r
        ]
      ]

  unfoldable pub decode_fleet_lifecycle_request :
      (String → String)
      → String
      → Option (List String)
      → Option LifecycleRequest
      → Result String LifecycleRequest
  unfolding decode_restart decode_settings
  decode_fleet_lifecycle_request quote action none bound = err "valid JSON body is required"
  decode_fleet_lifecycle_request quote action (some fields) bound =
      if is_restart action
      then decode_restart quote fields bound
      else decode_settings quote fields bound

  -- The call of a route: the path, the headers and the body. `marshal` is json.Marshal of the request.
  pub record LifecycleCall : Type 0 where
    pub action : String
    pub id : String
    pub idempotency_key : String
    pub effect_id : String
    pub fields : Option (List String)
    pub bound : Option LifecycleRequest

  abbrev pub domain : LifecycleCall → String
  domain c = c.action ++ "\0" ++ trim_space c.id ++ "\0"

  abbrev pub operation : LifecycleCall → String → Operation
  operation c sha = record {
    idempotency_key = c.idempotency_key;
    effect_id = c.effect_id;
    action = c.action;
    container_id = trim_space c.id;
    request_sha256 = sha;
  }

  module _ (h : FleetHost) (marshal : LifecycleRequest → Option String) where
    open h use {World}

    unfoldable pub restart_runtime : String → World → Option String × World
    restart_runtime container_id w =
        let (failure, w') = h.restart container_id w in
        (elim failure [ none ↦ none | some e ↦ some e.message ], w')

    unfoldable pub reconfigure : String → LifecycleRequest → World → Option String × World
    unfolding fleet_reconfigure_commands exec_all
    reconfigure container_id request w =
        elim (fleet_reconfigure_commands h.quote (entries request.env)) [
          | err message ↦ (some message, w)
          | ok commands ↦ exec_all h container_id "apply runtime configuration: " commands w
        ]

    -- The world is saved before the runtime is stopped.
    unfoldable pub suspend : String → World → Option String × World
    suspend container_id w =
        let (unflushed, w1) = h.exec container_id ("rcon" ∷ "save-all flush" ∷ []) w in
        let (running, w2) = h.exec container_id ("rcon" ∷ "stop" ∷ []) w1 in
        elim unflushed [
          | some e ↦ (some ("flush before suspend: " ++ e.message), w1)
          | none ↦ elim running [
            | some e ↦ (some ("suspend runtime: " ++ e.message), w2)
            | none ↦ (none, w2)
          ]
        ]

    after_prepare : String → Option String → World → Option String × World
    unfolding restart_runtime
    after_prepare container_id (some message) w = (some message, w)
    after_prepare container_id none w = restart_runtime container_id w

    unfoldable pub regenerate : String → World → Option String × World
    unfolding exec_all after_prepare
    regenerate container_id w =
        let (failure, w') =
          exec_all h container_id "prepare world regeneration: " regenerate_commands w in
        after_prepare container_id failure w'

    unfoldable pub execute_fleet_lifecycle :
        String → String → LifecycleRequest → World → Option String × World
    unfolding reconfigure suspend regenerate restart_runtime
    execute_fleet_lifecycle action container_id request w =
        let changes = has_resources request || has_env request in
        let configured = reconfigure container_id request w in
        let suspended = suspend container_id w in
        let restarted = restart_runtime container_id w in
        let regenerated = regenerate container_id w in
        if action == "reconfigure" || action == "config-apply"
        then if has_resources request
          then (some "live resource reconfiguration is not supported by this runtime", w)
          else configured
        else if action == "suspend"
        then if changes
          then (some "suspend does not accept resource or environment changes", w)
          else suspended
        else if action == "resume"
        then if changes
          then (some "resume does not accept resource or environment changes", w)
          else restarted
        else if action == "restart"
        then if changes
          then (some "restart does not accept resource or environment changes", w)
          else restarted
        else if action == "regenerate"
        then if changes
          then (some "regenerate does not accept resource or environment changes", w)
          else regenerated
        else (some "unsupported lifecycle action", w)

    unfoldable pub executed : Operation → LifecycleRequest → Option String → World → Answer × World
    unfolding finish fleet_lifecycle_status
    executed o request (some message) w = (failed 422 message, w)
    executed o request none w =
        finish h o "encode lifecycle response"
          (record {
            id = o.container_id;
            server_id = request.server_id;
            node_id = request.node_id;
            container_id = o.container_id;
            status = fleet_lifecycle_status o.action;
          })
          w

    unfoldable pub execute : Operation → LifecycleRequest → World → Answer × World
    unfolding executed execute_fleet_lifecycle
    execute o request w =
        let (failure, w') = execute_fleet_lifecycle o.action o.container_id request w in
        executed o request failure w'

    -- The logical server ID has to own the container of the path.
    unfoldable pub owned_answered :
        Operation → LifecycleRequest → Result DockerError (Option String) → World → Answer × World
    unfolding execute lookup_failed
    owned_answered o request (err e) w = (lookup_failed e "scoped server lookup unavailable", w)
    owned_answered o request (ok owned) w =
        let rest = execute o request w in
        if not (is_container o.container_id owned)
        then (failed 409 "server identity does not match container", w)
        else rest

    unfoldable pub got :
        Operation → LifecycleRequest → Result DockerError (Option String) → World → Answer × World
    unfolding owned_answered execute lookup_failed
    got o request (err e) w = (lookup_failed e e.message, w)
    got o request (ok server) w =
        let (owned, w') = h.get_owned request.server_id w in
        if not (is_container o.container_id server)
        then (failed 409 "container identity mismatch", w)
        else if is_restart o.action || o.action == "config-apply"
        then owned_answered o request owned w'
        else execute o request w

    unfoldable pub work : LifecycleRequest → Operation → World → Answer × World
    unfolding got
    work request o w = let (server, w') = h.get o.container_id w in got o request server w'

    unfoldable pub run : LifecycleCall → LifecycleRequest → World → Answer × World
    unfolding keyed work
    run c request =
        keyed h (marshal request) "invalid lifecycle request" (domain c) (operation c)
          "idempotency key already belongs to a different operation" (work request)

    unfoldable pub fleet_lifecycle_handler : LifecycleCall → World → Answer × World
    unfolding admitted run trim_space decode_fleet_lifecycle_request
    fleet_lifecycle_handler c =
        admitted h (trim_space c.id) c.idempotency_key c.effect_id
          (some (decode_fleet_lifecycle_request h.quote c.action c.fields c.bound)) (run c)
