-- ===== src/HostAgent/Limits.antt =====
-- What a client that NewWithTransport made holds to.
use bananagine.Prelude.{
  ℕ, ◌*◌, ◌≤◌, String, ℤ, pos, negsuc, pos_part, int_eq, ◌≤ℤ◌, Bool, true, false, not, ◌&&◌, ◌||◌,
  string_eq, ◌==◌, Option, some, some_injective, ◌≡◌, subst, arith, inl, inr, Bool-cases,
  Option-cases,
}
use bananagine.Service.{ok, ok_injective}
use bananagine.HostAgent.Types.{AgentHost, Config, Engine}
use bananagine.HostAgent.Config.{
  Endpoint, second, is_empty, outside, local_http, with_defaults, bounds_checked,
  new_with_transport,
}
use bananagine.HostAgent.Client.{Client}
use bananagine.HostAgent.Client.Step.{step}
use bananagine.HostAgent.Client.Isolation.{step-bounded}

-- The endpoint is reached by TLS or on this host, and the three limits are in their ranges.
pub record IsConfigured (parse : String → Option Endpoint) (cfg : Config) : Type 0 where
  pub endpoint : Endpoint
  pub parsed : parse cfg.base_url ≡ some endpoint
  pub secure : (endpoint.scheme == "https") || local_http endpoint ≡ true
  pub lease : (pos second ≤ℤ cfg.lease) × (cfg.lease ≤ℤ pos (300 * second))
  pub max_actions : (pos 1 ≤ℤ cfg.max_actions) × (cfg.max_actions ≤ℤ pos 64)
  pub retry_delay : (pos second ≤ℤ cfg.retry_delay) × (cfg.retry_delay ≤ℤ pos (3600 * second))

inside : (value low high : ℤ) → outside value low high ≡ false → (low ≤ℤ value) × (value ≤ℤ high)
inside value low high h = (ground arith, ground arith)

abbrev Limited : Config → Type 0
Limited cfg =
    ((pos second ≤ℤ cfg.lease) × (cfg.lease ≤ℤ pos (300 * second)))
    × ((pos 1 ≤ℤ cfg.max_actions) × (cfg.max_actions ≤ℤ pos 64))
    × ((pos second ≤ℤ cfg.retry_delay) × (cfg.retry_delay ≤ℤ pos (3600 * second)))

bounds_checked-Limited :
    (cfg made : Config) (has_transport : Bool)
    → bounds_checked cfg has_transport ≡ ok made
    → (cfg ≡ made) × Limited cfg
unfolding bounds_checked
bounds_checked-Limited cfg made has_transport =
    elim (Bool-cases (outside cfg.lease (pos second) (pos (300 * second)))) [
      | inl bad ↦ rw (bad, bounds_checked) (λ q. absurd cc)
      | inr lease ↦ elim (Bool-cases (outside cfg.max_actions (pos 1) (pos 64))) [
        | inl bad ↦ rw (lease, bad, bounds_checked) (λ q. absurd cc)
        | inr actions ↦
            elim (Bool-cases (outside cfg.retry_delay (pos second) (pos (3600 * second)))) [
              | inl bad ↦ rw (lease, actions, bad, bounds_checked) (λ q. absurd cc)
              | inr retry ↦ elim (Bool-cases has_transport) [
                | inr bare ↦ rw (lease, actions, retry, bare, bounds_checked) (λ q. absurd cc)
                | inl there ↦
                    let limited : Limited cfg = (
                      inside cfg.lease (pos second) (pos (300 * second)) lease,
                      inside cfg.max_actions (pos 1) (pos 64) actions,
                      inside cfg.retry_delay (pos second) (pos (3600 * second)) retry,
                    ) in
                    rw (lease, actions, retry, there, bounds_checked)
                      (λ q. (ok_injective q, limited))
              ]
            ]
      ]
    ]

reachable : (a b c : Bool) → a || not b && not c ≡ false → b || c ≡ true
reachable a b c h = ground arith

-- A configuration that `new_with_transport` accepts has, after its defaults, an endpoint that is
-- reached by https, or by http on this host; a lease from one second to five minutes, an action bound
-- from 1 to 64, and a retry delay from one second to one hour.
pub new_with_transport-IsConfigured :
    (parse : String → Option Endpoint) (cfg made : Config) (has_transport has_engine : Bool)
    → new_with_transport parse cfg has_transport has_engine ≡ some (ok made)
    → IsConfigured parse made
unfolding new_with_transport with_defaults
new_with_transport-IsConfigured parse cfg made has_transport has_engine =
    elim (Bool-cases (
      cfg.base_url == ""
      || cfg.host_id == ""
      || cfg.agent_id == ""
      || is_empty cfg.principals
      || not has_engine)) [
        | inl bad ↦ rw (bad, new_with_transport) (λ q. absurd cc)
        | inr full ↦ elim (Option-cases (parse cfg.base_url)) [
          | inl unparsed ↦ rw (full, unparsed, new_with_transport) (λ q. absurd cc)
          | inr (e, parsed) ↦
              let https = e.scheme == "https" in
              elim (Bool-cases (e.host == "" || not https && not (local_http e))) [
                | inl bad ↦ rw (full, parsed, bad, new_with_transport) (λ q. absurd cc)
                | inr tls ↦
                    let secure = reachable (e.host == "") https (local_http e) tls in
                    let checks : new_with_transport parse cfg has_transport has_engine
                          ≡ some (ok made)
                        → bounds_checked (with_defaults cfg) has_transport ≡ ok made =
                      rw (full, parsed, tls, new_with_transport) (λ q. some_injective q) in
                    λ q.
                      let (same, limited) =
                        bounds_checked-Limited (with_defaults cfg) made has_transport (checks q) in
                      subst (IsConfigured parse) same (record {
                        endpoint = e;
                        parsed = parsed;
                        secure = secure;
                        lease = limited.0;
                        max_actions = limited.1;
                        retry_delay = limited.2;
                      })
              ]
        ]
      ]

pos_part_bounded : (a : ℤ) (n : ℕ) → a ≤ℤ pos n → pos_part a ≤ n
pos_part_bounded (pos m) n h = omega arith
pos_part_bounded (negsuc m) n h = omega arith

-- A client that `new_with_transport` made processes at most 64 actions in one tick, whatever Evolution
-- and the engine answer.
pub step_bounded :
    (h : AgentHost) (engine : Engine h.World) (parse : String → Option Endpoint) (cfg made : Config)
    (has_transport has_engine : Bool) (c : Client h)
    → new_with_transport parse cfg has_transport has_engine ≡ some (ok made)
    → (step h made engine c).0.0 ≤ 64
step_bounded h engine parse cfg made has_transport has_engine c q =
    let bound = step-bounded h made engine c in
    let limits = new_with_transport-IsConfigured parse cfg made has_transport has_engine q in
    let most = pos_part_bounded made.max_actions 64 limits.max_actions.1 in
    omega (arith, bound, most)
