-- ===== src/HostAgent/Client/Step.antt =====
-- One tick of a client: claims, and the execution and settlement of each claimed action.
use Prim.Native.String.{◌++◌}
use bananagine.Prelude.{
  ℕ, zero, suc, String, ℤ, pos, pos_part, Bool, true, false, not, ◌&&◌, ◌||◌, string_eq, ◌==◌,
  Option, none, some, ◌*◌, if◌then◌else◌,
}
use bananagine.Service.{Result, ok, err}
use bananagine.Text.Decimal.{decimal}
use bananagine.HostAgent.Config.{second}
use bananagine.HostAgent.Types.{
  AgentHost, Config, Message, ClaimRequest, Action, ClaimResult, Invocation, Outcome, Engine,
  EngineError, ExecutionEvidence,
}
use bananagine.HostAgent.Client.{
  contract_version, Client, command, post, read_result, validate_action, bounded,
}

abbrev pub evidence_version : String
evidence_version = "sessions.workload-execution.v1"

-- The workload, the generation and the attempt, as every name of an effect has them.
unfoldable pub fence_name : Action → String
unfolding decimal
fence_name a =
    a.desired.workload_id ++ "/" ++ decimal a.fence.generation ++ "/" ++ decimal a.fence.attempt

unfoldable pub invocation : Config → Action → Invocation
unfolding fence_name
invocation cfg a = record {
  host_id = cfg.host_id;
  agent_id = cfg.agent_id;
  workload_id = a.desired.workload_id;
  generation = a.desired.generation;
  payload = a.desired.payload;
  idempotency_key = "assignment/" ++ fence_name a ++ "/" ++ a.fence.payload_sha256;
}

unfoldable pub is_operation : String → Bool
is_operation operation =
    operation == "create"
    || operation == "start"
    || operation == "update"
    || operation == "stop"
    || operation == "delete"

-- The engine's operation of an action whose operation is known.
unfoldable pub engine_run :
    {World : Type 0}
    → Engine World
    → String
    → Invocation
    → World
    → (Outcome × Option EngineError) × World
engine_run e operation inv w =
    if operation == "create"
    then e.create inv w
    else if operation == "start"
    then e.start inv w
    else if operation == "update"
    then e.update inv w
    else if operation == "stop"
    then e.stop inv w
    else e.delete inv w

abbrev pub succeeded : Option EngineError → Bool
succeeded none = true
succeeded (some _) = false

unfoldable pub observed_state : Outcome → Option EngineError → String
observed_state out failure =
    if out.state == "" then if succeeded failure then "applied" else "failed" else out.state

-- An error that says of itself that it is permanent is retried after an hour.
unfoldable pub retry_delay : Config → EngineError → ℤ
retry_delay cfg e = elim e.retryable [
  | none ↦ cfg.retry_delay
  | some retryable ↦ if retryable then cfg.retry_delay else pos (3600 * second)
]

module _ (h : AgentHost) where
  open h use {World}

  unfoldable pub evidence_of :
      Config → Action → Outcome → Option EngineError → ℤ → Option ExecutionEvidence
  unfolding observed_state
  evidence_of cfg a out failure now =
      if succeeded failure && not (out.container_id == "")
      then some (record {
        version = evidence_version;
        server_id = a.desired.workload_id;
        host_id = cfg.host_id;
        container_id = out.container_id;
        state = observed_state out failure;
        completed_at_unix_milli = h.unix_milli now;
      })
      else none

  unfoldable pub detail_of : Option EngineError → String
  unfolding bounded
  detail_of none = ""
  detail_of (some e) = bounded h e.message 1024

  unfoldable pub receipt_of : Config → Action → Outcome → Option EngineError → ℤ → Message
  unfolding evidence_of detail_of observed_state fence_name
  receipt_of cfg a out failure now = Message.receipt (record {
    version = contract_version;
    command_id = "receipt/" ++ fence_name a;
    workload_id = a.desired.workload_id;
    receipt = record {
      lease_id = a.fence.lease_id;
      attempt = a.fence.attempt;
      generation = a.fence.generation;
      payload_sha256 = a.fence.payload_sha256;
      success = succeeded failure;
      observed_state = observed_state out failure;
      detail = detail_of failure;
      recorded_at_unix_milli = h.unix_milli now;
      evidence = evidence_of cfg a out failure now;
    };
  })

  unfoldable pub retry_of : Config → Action → EngineError → ℤ → Message
  unfolding retry_delay fence_name
  retry_of cfg a e now = Message.retry (record {
    version = contract_version;
    command_id = "retry/" ++ fence_name a;
    workload_id = a.desired.workload_id;
    expected_attempt = a.fence.attempt;
    retry_at_unix_milli = h.unix_milli (h.add now (retry_delay cfg e));
  })

  -- A post whose answer is only checked.
  unfoldable pub posted : Config → String → Message → World → Option String × World
  unfolding post read_result
  posted cfg path message w =
      let (answer, w1) = post h cfg path message w in
      (elim (read_result h answer) [ ok _ ↦ none | err e ↦ some e ], w1)

  -- The receipt of an action, and after a failure the request for its retry.
  unfoldable pub settle :
      Config → Action → ℤ → Outcome → Option EngineError → World → Option String × World
  unfolding posted receipt_of retry_of
  settle cfg a now out failure w =
      let (unposted, w1) =
        posted cfg "/internal/host-agent/receipt" (receipt_of cfg a out failure now) w in
      elim unposted [
        | some e ↦ (some e, w1)
        | none ↦ elim failure [
          | none ↦ (none, w1)
          | some e ↦ posted cfg "/internal/host-agent/retry" (retry_of cfg a e now) w1
        ]
      ]

  unfoldable pub execute_and_settle :
      Config → Engine World → Action → ℤ → World → Option String × World
  unfolding settle engine_run invocation is_operation
  execute_and_settle cfg engine a now w =
      let ((out, failure), w1) = engine_run engine a.desired.operation (invocation cfg a) w in
      let settled = settle cfg a now out failure w1 in
      if not (is_operation a.desired.operation)
      then (some "unsupported assignment operation", w)
      else settled

  -- The claim of the loop's body.
  unfoldable pub claim : Config → Client h → ℤ × Result String ClaimResult × Client h
  unfolding command post read_result
  claim cfg c =
      let (now, w) = h.now c.world in
      let (id, c1) = command h cfg "claim" (record c { world = w }) in
      let request : ClaimRequest = record {
        version = contract_version;
        command_id = id;
        expected_attempt = 0;
        now_unix_milli = h.unix_milli now;
        lease_millis = h.milliseconds cfg.lease;
      } in
      let (answer, w1) = post h cfg "/internal/host-agent/claim" (Message.claim request) c1.world in
      (now, read_result h answer, record c1 { world = w1 })

  -- The loop, with the actions that are left and those that were processed.
  unfoldable pub step_from :
      Config → Engine World → ℕ → ℕ → Client h → (ℕ × Option String) × Client h
  unfolding claim validate_action execute_and_settle
  step_from cfg engine zero processed c = ((processed, none), c)
  step_from cfg engine (suc left) processed c =
      let (now, claimed, c1) = claim cfg c in
      elim claimed [
        | err e ↦ ((processed, some e), c1)
        | ok result ↦ elim result.action [
          | none ↦ ((processed, none), c1)
          | some a ↦ elim (validate_action h cfg a now) [
            | some e ↦ ((processed, some e), c1)
            | none ↦
                let (failure, w) = execute_and_settle cfg engine a now c1.world in
                let c2 = record c1 { world = w } in
                elim failure [
                  | some e ↦ ((suc processed, some e), c2)
                  | none ↦ step_from cfg engine left (suc processed) c2
                ]
          ]
        ]
      ]

  unfoldable pub step : Config → Engine World → Client h → (ℕ × Option String) × Client h
  unfolding step_from
  step cfg engine c = step_from cfg engine (pos_part cfg.max_actions) 0 c
