-- ===== src/HostAgent/Runtime.antt =====
-- pulp-cell/host_agent_runtime.go: the ticks of the host agent, and the principals in its configuration.
-- strconv.ParseInt is a parameter.
pub mod Heartbeat
use Prim.Native.Char.{code}
use Prim.Native.String.{◌++◌}
use bananagine.Prelude.{
  ℕ, suc, ◌+◌, ◌-◌, ◌*◌, ◌%◌, ◌^◌, ◌≤◌, ◌<◌, leb, ltb, nat_eq, String, string_eq, ℤ, pos, negsuc,
  leb_ℤ, Bool, true, false, not, ◌==◌, Option, none, some, List, [], ◌∷◌, ◌≡◌, refl, arith, inl,
  inr, Bool-cases, if◌then◌else◌,
}
use bananagine.Service.{Result, ok, err, ◌>>=◌}
use bananagine.Text.{trim_space}
use bananagine.Text.Split.{split_at, cut_at}
use bananagine.HostAgent.Types.{AgentHost, PrincipalCredential, Config, HostObservation, Engine}
use bananagine.HostAgent.Config.{second}
use bananagine.HostAgent.Client.{Client, observe}
use bananagine.HostAgent.Client.Step.{step}

module _ (parse_int : String → Option ℤ) where
  unfoldable pub parse_expiry : Option ℤ → Result String ℤ
  parse_expiry none = err "invalid principal expiry"
  parse_expiry (some expires) =
      if leb_ℤ expires (pos 0) then err "invalid principal expiry" else ok expires

  abbrev nanoseconds : ℤ → ℤ
  nanoseconds (pos n) = pos (n * second)
  nanoseconds (negsuc n) = negsuc (suc n * second - 1)

  unfoldable pub parse_principal : String → Result String PrincipalCredential
  unfolding cut_at parse_expiry trim_space
  parse_principal item = elim (cut_at b'@' (trim_space item)) [
    | none ↦ err "principal must be token@unix-expiry"
    | some (token, expiry) ↦ parse_expiry (parse_int expiry) >>= λ expires.
        ok (record { token = token; expires_at = nanoseconds expires })
  ]

  unfoldable pub parse_principals : List String → Result String (List PrincipalCredential)
  unfolding parse_principal
  parse_principals [] = ok []
  parse_principals (item ∷ rest) =
      let more = parse_principals rest in parse_principal item >>= λ p. more >>= λ ps. ok (p ∷ ps)

  unfoldable pub parse_host_agent_principals : String → Result String (List PrincipalCredential)
  unfolding parse_principals split_at trim_space
  parse_host_agent_principals raw =
      if trim_space raw == ""
      then err "host agent principals are required"
      else parse_principals (split_at b',' raw)

-- uint64(n) of an int64.
unfoldable pub to_uint64 : ℤ → ℕ
to_uint64 (pos n) = n % 2 ^ 64
to_uint64 (negsuc n) = 2 ^ 64 - 1 - n % 2 ^ 64

-- The heartbeat's generation: the clock in milliseconds, or the successor of the last one.
unfoldable pub next_generation : ℤ → ℕ → ℕ
unfolding to_uint64
next_generation millis last =
    if leb (to_uint64 millis) last then (last + 1) % 2 ^ 64 else to_uint64 millis

module _ (h : AgentHost) where
  open h use {World}

  pub record HostAgentRuntime : Type 0 where
    pub client : Client h
    pub interval : ℤ
    pub next : ℤ
    pub last_generation : ℕ
    pub cpu_millis : ℤ
    pub memory_bytes : ℤ
    pub storage_bytes : ℤ

  unfoldable pub observation : HostAgentRuntime → ℤ → ℕ → HostObservation
  observation r now generation = record {
    contract_version = "";
    command_id = "";
    observed = "ready";
    heartbeat_generation = generation;
    at_unix_milli = h.unix_milli now;
    cpu_millicores = r.cpu_millis;
    memory_bytes = r.memory_bytes;
    storage_bytes = r.storage_bytes;
  }

  -- Before its time a tick does nothing. The time and the generation advance even if it fails.
  unfoldable pub tick :
      Config → Engine World → ℤ → HostAgentRuntime → Option String × HostAgentRuntime
  unfolding next_generation observation observe step
  tick cfg engine now r =
      let generation = next_generation (h.unix_milli now) r.last_generation in
      let due = record r { next = h.add now r.interval; last_generation = generation } in
      let (unobserved, client) = observe h cfg (observation r now generation) r.client in
      let ((processed, failure), stepped) = step h cfg engine client in
      if not (leb_ℤ r.next now) then (none, r) else (elim unobserved [
        | some e ↦ (some e, record due { client = client })
        | none ↦ (failure, record due { client = stepped })
      ])
