-- ===== src/HostAgent/Tests.antt =====
-- Runs of the host agent's client at concrete inputs.
use bananagine.Prelude.{
  ℕ, ℤ, suc, ◌<◌, ◌≤◌, pos, String, string_eq, true, ◌==◌, ◌≡◌, refl, ap, arith, eq_iff, Option,
  none, some, [], ◌∷◌, if◌then◌else◌, Bool-cases, inl, inr, subst, some_injective, ◌∙◌,
}
use bananagine.Service.{ok}
use bananagine.HostAgent.Types.{AgentHost, Action, Config, Engine, EngineError, Invocation, Outcome}
use bananagine.HostAgent.Config.{Endpoint, second, new_with_transport}
use bananagine.HostAgent.Client.{Client, credential}
use bananagine.HostAgent.Client.Step.{invocation, is_operation, engine_run, step}
use bananagine.HostAgent.Client.Assigned.{IsAssigned}
use bananagine.HostAgent.Client.Isolation.{step-agree}
use bananagine.HostAgent.Client.Credential.{IsSelected, credential-IsSelected}
use bananagine.HostAgent.Limits.{step_bounded}
use bananagine.HostAgent.Runtime.{HostAgentRuntime, tick}
use bananagine.HostAgent.Runtime.Heartbeat.{tick_advances}

abbrev action : Action
action = record {
  desired = record {
    workload_id = "mc-1";
    host_id = "node-a";
    generation = 4;
    revision = 1;
    operation = "create";
    payload = "{}";
    payload_sha256 = "d0";
    status = "assigned";
  };
  fence = record {
    lease_id = "l-1";
    attempt = 1;
    generation = 4;
    payload_sha256 = "d0";
    lease_expires_unix_milli = pos 100;
  };
}

-- An action of another host.
abbrev foreign : Action
foreign = record action {
  desired = record action.desired { workload_id = "mc-2"; host_id = "node-b" };
}

-- The world counts the engine's operations. Every claim is answered with the action, and any other
-- body would be read as the foreign one.
abbrev host : AgentHost
host = record {
  World = ℕ;
  now = λ w. (pos 5, w);
  post = λ url headers body w. (ok (pos 200, "{}"), w);
  encode = λ message. some "{}";
  decode_result = λ body. some (record {
    desired = none;
    action = some (if body == "{}" then action else foreign);
    settled = true;
  });
  decode_token = λ body. some "t";
  sha256 = λ text. "d0";
  cut = λ text n. text;
  unix_milli = λ t. t;
  unix = λ t. t;
  add = λ t d. d;
  milliseconds = λ d. d;
}

abbrev cfg : Config
cfg = record {
  base_url = "https://evolution";
  host_id = "node-a";
  agent_id = "agent-1";
  principals =
      record { token = "short"; expires_at = pos 50 }
      ∷ record { token = "long"; expires_at = pos 90 }
      ∷ record { token = "old"; expires_at = pos 2 }
      ∷ [];
  lease = pos second;
  max_actions = pos 2;
  retry_delay = pos second;
}

abbrev client : Client host
client = record { sequence = 0; world = 0 }

abbrev Run : Type 0
Run = Invocation → ℕ → (Outcome × Option EngineError) × ℕ

abbrev runs : Run
runs inv w = ((record { state = "running"; container_id = "4f2a" }, none), suc w)

-- Does something else with the workload of the foreign action.
abbrev strays : Run
strays inv w =
    if inv.workload_id == "mc-1"
    then runs inv w
    else ((record { state = "lost"; container_id = "" }, none), w)

abbrev engine : Run → Engine ℕ
engine run = record { create = run; start = run; update = run; stop = run; delete = run }

agrees_here :
    (operation : String) (inv : Invocation) (w : ℕ)
    → (inv.workload_id == "mc-1") ≡ true
    → engine_run (engine runs) operation inv w ≡ engine_run (engine strays) operation inv w
unfolding engine_run
agrees_here operation inv w here =
    let same : runs inv w ≡ strays inv w = rw here refl in
    ap
      (λ r.
        if operation == "create"
        then r
        else if operation == "start"
        then r
        else if operation == "update"
        then r
        else if operation == "stop"
        then r
        else r)
      same

either_action :
    (body : String) (a : Action)
    → (if body == "{}" then action else foreign) ≡ a
    → a.desired.host_id ≡ "node-a"
    → (a.desired.workload_id == "mc-1") ≡ true
either_action body a = elim (Bool-cases (body == "{}")) [
  | inl empty ↦ rw empty (λ q h. subst (λ x. (x.desired.workload_id == "mc-1") ≡ true) q refl)
  | inr other ↦
      rw other
        (λ q h. absurd (ground (arith, eq_iff "node-b" "node-a", ap (λ x. x.desired.host_id) q)))
]

agrees :
    (a : Action) (now : ℤ) (w : ℕ)
    → is_operation a.desired.operation ≡ true
    → IsAssigned host cfg now a
    → engine_run (engine runs) a.desired.operation (invocation cfg a) w
      ≡ engine_run (engine strays) a.desired.operation (invocation cfg a) w
unfolding invocation
agrees a now w known assigned =
    let decoded = ap (λ r. r.action) (some_injective assigned.decoded) ∙ assigned.claimed in
    agrees_here a.desired.operation (invocation cfg a) w
      (either_action assigned.body a (some_injective decoded) assigned.host)

step-agree_example : step host cfg (engine runs) client ≡ step host cfg (engine strays) client
step-agree_example = step-agree host cfg (engine runs) (engine strays) agrees client

-- Two actions are processed, as the configuration says.
processes_two : (step host cfg (engine runs) client).0.0 ≡ 2
unfolding step
processes_two = refl

abbrev parse : String → Option Endpoint
parse text = some (record { scheme = "https"; host = "evolution"; hostname = "evolution" })

configured : new_with_transport parse cfg true true ≡ some (ok cfg)
unfolding new_with_transport
configured = refl

step_bounded_example : (step host cfg (engine runs) client).0.0 ≤ 64
step_bounded_example = step_bounded host (engine runs) parse cfg cfg true true client configured

credential-IsSelected_example :
    IsSelected (pos 5) cfg.principals (credential cfg.principals (pos 5))
credential-IsSelected_example = credential-IsSelected cfg.principals (pos 5) refl

presents_long : credential cfg.principals (pos 5) ≡ ok "long"
unfolding credential
presents_long = refl

abbrev runtime : HostAgentRuntime host
runtime = record {
  client = client;
  interval = pos second;
  next = pos 0;
  last_generation = 7;
  cpu_millis = pos 1000;
  memory_bytes = pos 0;
  storage_bytes = pos 0;
}

tick_advances_example : 7 < (tick host cfg (engine runs) (pos 5) runtime).1.last_generation
tick_advances_example = tick_advances host cfg (engine runs) (pos 5) runtime refl (omega arith)
