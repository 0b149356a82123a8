-- ===== src/HostAgent/Client.antt =====
-- The requests of a client: its credential, its commands, the post, and what it accepts.
pub mod Step
pub mod Assigned
pub mod Isolation
pub mod Credential
use Prim.Native.Char.{code}
use Prim.Native.String.{◌++◌, len}
use bananagine.Prelude.{
  ℕ, ◌+◌, ◌%◌, ◌^◌, ltb, nat_eq, String, ℤ, pos, negsuc, int_eq, leb_ℤ, Bool, true, false, not,
  ◌&&◌, ◌||◌, string_eq, ◌==◌, Option, none, some, List, [], ◌∷◌, if◌then◌else◌,
}
use bananagine.Service.{Result, ok, err}
use bananagine.Text.Decimal.{decimal, decimal_int}
use bananagine.HostAgent.Types.{
  AgentHost, PrincipalCredential, Config, Message, Action, ClaimResult, HostObservation,
  CapabilityRequest,
}

abbrev pub contract_version : String
contract_version = "assignment-reconcile.v1"

-- a.After(b).
abbrev pub after : ℤ → ℤ → Bool
after a b = not (leb_ℤ a b)

-- The zero time.Time, the first of January of the year 1.
abbrev pub no_principal : PrincipalCredential
no_principal = record { token = ""; expires_at = negsuc 62135596799999999999 }

-- The one of the two that the loop keeps.
unfoldable pub better : ℤ → PrincipalCredential → PrincipalCredential → PrincipalCredential
better now candidate selected =
    if not (candidate.token == "")
      && after candidate.expires_at now
      && after candidate.expires_at selected.expires_at
    then candidate
    else selected

unfoldable pub select : ℤ → List PrincipalCredential → PrincipalCredential → PrincipalCredential
unfolding better
select now [] selected = selected
select now (candidate ∷ rest) selected = select now rest (better now candidate selected)

unfoldable pub credential : List PrincipalCredential → ℤ → Result String String
unfolding select
credential principals now =
    let selected = select now principals no_principal in
    if selected.token == "" then err "no unexpired host principal" else ok selected.token

-- strings.TrimRight(s, "/").
unfoldable pub trim_slashes : String → String
trim_slashes String.[] = String.[]
trim_slashes (String.◌∷◌ c s) =
    let rest = trim_slashes s in
    if code c == b'/' && rest == "" then String.[] else String.◌∷◌ c rest

module _ (h : AgentHost) where
  open h use {World}

  -- The client's own state is the number of its last command, a uint64.
  pub record Client : Type 0 where
    pub sequence : ℕ
    pub world : World

  unfoldable pub command : Config → String → Client → String × Client
  unfolding decimal decimal_int
  command cfg kind c =
      let sequence = (c.sequence + 1) % (2 ^ 64) in
      let (now, w) = h.now c.world in
      (
        "agent/"
            ++ cfg.agent_id
            ++ "/"
            ++ kind
            ++ "/"
            ++ decimal_int (h.unix_milli now)
            ++ "/"
            ++ decimal sequence,
        record { sequence = sequence; world = w },
      )

  -- The answer to what was sent.
  unfoldable pub received : String → Result String (ℤ × String) → Result String String
  unfolding decimal_int
  received path (err e) = err e
  received path (ok (status, body)) =
      if not (leb_ℤ (pos 200) status) || leb_ℤ (pos 300) status
      then err ("evolution host agent " ++ path ++ " rejected: status " ++ decimal_int status)
      else ok body

  -- The body of an accepted post; where the source binds it, `read_result` or `read_token` follows.
  unfoldable pub post : Config → String → Message → World → Result String String × World
  unfolding credential received trim_slashes
  post cfg path message w =
      let (now, w1) = h.now w in
      elim (credential cfg.principals now) [
        | err e ↦ (err e, w1)
        | ok token ↦ elim (h.encode message) [
          | none ↦ (err "json: unsupported value", w1)
          | some raw ↦
              let headers =
                ("Authorization", "Bearer " ++ token) ∷ ("Content-Type", "application/json") ∷ [] in
              let (answer, w2) = h.post (trim_slashes cfg.base_url ++ path) headers raw w1 in
              (received path answer, w2)
        ]
      ]

  unfoldable pub read_result : Result String String → Result String ClaimResult
  read_result (err e) = err e
  read_result (ok body) = elim (h.decode_result body) [
    | none ↦ err "invalid Evolution host-agent response"
    | some result ↦ ok result
  ]

  unfoldable pub read_token : Result String String → Result String String
  read_token (err e) = err e
  read_token (ok body) = elim (h.decode_token body) [
    | none ↦ err "invalid Evolution host-agent response"
    | some token ↦ ok token
  ]

  -- The identity and the fence of an action; none where it is accepted.
  unfoldable pub fence_defect : Config → Action → ℤ → Bool
  fence_defect cfg a now =
      not (a.desired.host_id == cfg.host_id)
      || a.desired.workload_id == ""
      || a.desired.generation == 0
      || not (a.fence.generation == a.desired.generation)
      || a.fence.attempt == 0
      || a.fence.lease_id == ""
      || leb_ℤ a.fence.lease_expires_unix_milli (h.unix_milli now)

  unfoldable pub validate_action : Config → Action → ℤ → Option String
  unfolding fence_defect
  validate_action cfg a now =
      if fence_defect cfg a now
      then some "invalid or cross-host assignment fence"
      else if not (h.sha256 a.desired.payload == a.fence.payload_sha256)
          || not (a.desired.payload_sha256 == a.fence.payload_sha256)
      then some "assignment payload digest mismatch"
      else none

  unfoldable pub bounded : String → ℕ → String
  bounded value limit = if ltb limit (len value) then h.cut value limit else value

  abbrev named_observation : HostObservation → String → HostObservation
  named_observation q id = if q.command_id == "" then record q { command_id = id } else q

  -- A command number is used up where the observation has none of its own.
  unfoldable pub observe : Config → HostObservation → Client → Option String × Client
  unfolding command post
  observe cfg q c =
      let q1 =
        if q.contract_version == ""
        then record q { contract_version = "infrastructure-host.v1" }
        else q in
      let (id, numbered) = command cfg "observe" c in
      let c1 = if q1.command_id == "" then numbered else c in
      let path : String = "/internal/host-agent/observe" in
      let (answer, w) = post cfg path (Message.observe (named_observation q1 id)) c1.world in
      (elim answer [ ok _ ↦ none | err e ↦ some e ], record c1 { world = w })

  unfoldable pub issue_callback :
      Config → String → String → ℤ → World → Result String String × World
  unfolding post read_token
  issue_callback cfg workload operation expiry w =
      let request : CapabilityRequest = record {
        workload_id = workload;
        operation = operation;
        expires_at_unix = h.unix expiry;
      } in
      let (answer, w1) =
        post cfg "/internal/host-agent/capability" (Message.capability request) w in
      (read_token answer, w1)
