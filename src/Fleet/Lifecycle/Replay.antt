-- ===== src/Fleet/Lifecycle/Replay.antt =====
-- Receipts of fleetLifecycleHandler: an answered call is answered again from its receipt.
use bananagine.Prelude.{
  String, ◌||◌, string_eq, ◌==◌, Option, none, some, ◌≡◌, inl, inr, Bool-cases,
}
use bananagine.Service.{Result, ok, err}
use bananagine.Text.{trim_space}
use bananagine.Allocation.Capacity.{Float64}
use bananagine.Creation.Host.{DockerError}
use bananagine.Fleet.Host.{FleetHost, responded, Operation, is_container}
use bananagine.Fleet.Host.Replay.{
  IsDurable, Kept, Keeps, IsReplayed, finish-Kept, lookup_failed_fails, keyed-IsReplayed,
  admitted-IsReplayed,
}
use bananagine.Fleet.Lifecycle.{
  domain, operation, LifecycleRequest, LifecycleCall, is_restart, executed, execute, owned_answered,
  got, work, run, fleet_lifecycle_handler, decode_fleet_lifecycle_request,
}

module _ (f : Float64) (h : FleetHost) (marshal : LifecycleRequest f → Option String)
    (d : IsDurable h) where
  executed-Kept :
      (o : Operation) (request : LifecycleRequest f) (failure : Option String) (w : h.World)
      (response : String)
      → (executed f h marshal o request failure w).0 ≡ responded response
      → Kept h o response (executed f h marshal o request failure w).1
  unfolding executed
  executed-Kept o request (some message) w response q = absurd cc
  executed-Kept o request none w response q = finish-Kept h d o _ _ w response q

  execute-Kept :
      (o : Operation) (request : LifecycleRequest f) (w : h.World) (response : String)
      → (execute f h marshal o request w).0 ≡ responded response
      → Kept h o response (execute f h marshal o request w).1
  unfolding execute
  execute-Kept o request w response q = executed-Kept o request _ _ response q

  owned_answered-Kept :
      (o : Operation) (request : LifecycleRequest f) (owned : Result DockerError (Option String))
      (w : h.World) (response : String)
      → (owned_answered f h marshal o request owned w).0 ≡ responded response
      → Kept h o response (owned_answered f h marshal o request owned w).1
  unfolding owned_answered
  owned_answered-Kept o request (err e) w response =
      λ q. absurd (lookup_failed_fails e "scoped server lookup unavailable" response q)
  owned_answered-Kept o request (ok owned) w response =
      elim (Bool-cases (is_container o.container_id owned)) [
        | inr other ↦ rw (other, owned_answered) (λ q. absurd cc)
        | inl same ↦ rw (same, owned_answered) (execute-Kept o request w response)
      ]

  got-Kept :
      (o : Operation) (request : LifecycleRequest f) (server : Result DockerError (Option String))
      (w : h.World) (response : String)
      → (got f h marshal o request server w).0 ≡ responded response
      → Kept h o response (got f h marshal o request server w).1
  unfolding got
  got-Kept o request (err e) w response = λ q. absurd (lookup_failed_fails e e.message response q)
  got-Kept o request (ok server) w response =
      elim (Bool-cases (is_container o.container_id server)) [
        | inr other ↦ rw (other, got) (λ q. absurd cc)
        | inl same ↦ elim (Bool-cases (is_restart o.action || o.action == "config-apply")) [
          | inl scoped ↦
              let (owned, w') = h.get_owned request.server_id w in
              rw (same, scoped, got) (owned_answered-Kept o request owned w' response)
          | inr local ↦ rw (same, local, got) (execute-Kept o request w response)
        ]
      ]

  work-Keeps : (request : LifecycleRequest f) → Keeps h (work f h marshal request)
  unfolding work
  work-Keeps request o w = let (server, w') = h.get o.container_id w in got-Kept o request server w'

  run-IsReplayed :
      (c : LifecycleCall f) (request : LifecycleRequest f)
      → IsReplayed h (run f h marshal c request)
  unfolding run
  run-IsReplayed c request =
      keyed-IsReplayed h (marshal request) "invalid lifecycle request" (domain f c) (operation f c)
        "idempotency key already belongs to a different operation" (work f h marshal request)
        (work-Keeps request)

  -- With durable files and responses that are not empty, a call of a lifecycle route that was answered
  -- with a response is answered with the same response when it is made again, and the second call
  -- changes nothing: the runtime is not restarted, suspended or reconfigured twice.
  pub fleet_lifecycle_handler_again :
      (c : LifecycleCall f) (w : h.World) (response : String)
      → (fleet_lifecycle_handler f h marshal c w).0 ≡ responded response
      → fleet_lifecycle_handler f h marshal c (fleet_lifecycle_handler f h marshal c w).1
        ≡ (responded response, (fleet_lifecycle_handler f h marshal c w).1)
  unfolding fleet_lifecycle_handler
  fleet_lifecycle_handler_again c =
      admitted-IsReplayed h (trim_space c.id) c.idempotency_key c.effect_id
        (some (decode_fleet_lifecycle_request f h.quote c.action c.fields c.bound))
        (run f h marshal c) (λ request. run-IsReplayed c request)
