-- ===== src/Fleet/Access/Replay.antt =====
-- Receipts of fleetAccessHandler: an answered call is answered again from its receipt.
use bananagine.Prelude.{String, List, string_eq, Option, none, some, ◌≡◌, inl, inr, Bool-cases}
use bananagine.Service.{Result, ok, err}
use bananagine.Text.{trim_space}
use bananagine.Creation.Host.{DockerError}
use bananagine.Fleet.Host.{FleetHost, responded, Operation, is_container}
use bananagine.Fleet.Host.Replay.{
  IsDurable, Kept, Keeps, IsReplayed, finish-Kept, lookup_failed_fails, keyed-IsReplayed,
  admitted-IsReplayed,
}
use bananagine.Fleet.Access.{
  domain, operation, AccessRequest, AccessCall, executed, execute, owned_answered, got, work, run,
  decode_fleet_access_apply_request, fleet_access_apply_handler, decode_fleet_access_apply_request,
}

module _ (h : FleetHost) (marshal : AccessRequest → Option String) (json_text : String → String)
    (d : IsDurable h) where
  executed-Kept :
      (o : Operation) (request : AccessRequest) (failure : Option String) (w : h.World)
      (response : String)
      → (executed h marshal json_text o request failure w).0 ≡ responded response
      → Kept h o response (executed h marshal json_text o request failure w).1
  unfolding executed
  executed-Kept o request (some message) w response q = absurd cc
  executed-Kept o request none w response q = finish-Kept h d o _ _ w response q

  execute-Kept :
      (o : Operation) (request : AccessRequest)
      (commands : Option (Result String (List (List String)))) (w : h.World) (response : String)
      → (execute h marshal json_text o request commands w).0 ≡ responded response
      → Kept h o response (execute h marshal json_text o request commands w).1
  unfolding execute
  execute-Kept o request none w response q = absurd cc
  execute-Kept o request (some (err message)) w response q = absurd cc
  execute-Kept o request (some (ok commands)) w response q = executed-Kept o request _ _ response q

  owned_answered-Kept :
      (o : Operation) (request : AccessRequest) (owned : Result DockerError (Option String))
      (w : h.World) (response : String)
      → (owned_answered h marshal json_text o request owned w).0 ≡ responded response
      → Kept h o response (owned_answered h marshal json_text o request owned w).1
  unfolding owned_answered
  owned_answered-Kept o request (err e) w response = λ q. absurd cc
  owned_answered-Kept o request (ok owned) w response =
      elim (Bool-cases (is_container o.container_id owned)) [
        | inr other ↦ rw (other, owned_answered) (λ q. absurd cc)
        | inl same ↦ rw (same, owned_answered) (execute-Kept o request _ w response)
      ]

  got-Kept :
      (o : Operation) (request : AccessRequest) (server : Result DockerError (Option String))
      (w : h.World) (response : String)
      → (got h marshal json_text o request server w).0 ≡ responded response
      → Kept h o response (got h marshal json_text o request server w).1
  unfolding got
  got-Kept o request (err e) w response = λ q. absurd (lookup_failed_fails e e.message response q)
  got-Kept o request (ok server) w response =
      elim (Bool-cases (is_container o.container_id server)) [
        | inr other ↦ rw (other, got) (λ q. absurd cc)
        | inl same ↦
            let (owned, w') = h.get_owned request.server_id w in
            rw (same, got) (owned_answered-Kept o request owned w' response)
      ]

  work-Keeps : (request : AccessRequest) → Keeps h (work h marshal json_text request)
  unfolding work
  work-Keeps request o w = let (server, w') = h.get o.container_id w in got-Kept o request server w'

  run-IsReplayed :
      (c : AccessCall) (request : AccessRequest) → IsReplayed h (run h marshal json_text c request)
  unfolding run
  run-IsReplayed c request =
      keyed-IsReplayed h (marshal request) "invalid access request" (domain c) (operation c)
        "idempotency key already belongs to a different operation"
        (work h marshal json_text request) (work-Keeps request)

  -- With durable files and responses that are not empty, a call of the access route that was answered
  -- with a response is answered with the same response when it is made again, and the second call
  -- changes nothing: no command reaches the console twice.
  pub fleet_access_apply_handler_again :
      (c : AccessCall) (w : h.World) (response : String)
      → (fleet_access_apply_handler h marshal json_text c w).0 ≡ responded response
      → fleet_access_apply_handler h marshal json_text c
          (fleet_access_apply_handler h marshal json_text c w).1
        ≡ (responded response, (fleet_access_apply_handler h marshal json_text c w).1)
  unfolding fleet_access_apply_handler
  fleet_access_apply_handler_again c =
      admitted-IsReplayed h (trim_space c.id) c.idempotency_key c.effect_id
        (decode_fleet_access_apply_request h.quote c.fields c.bound) (run h marshal json_text c)
        (λ request. run-IsReplayed c request)
