-- ===== src/HostAgent/Config.antt =====
-- NewWithTransport: the checks of a configuration and its defaults. url.Parse is a parameter.
use bananagine.Prelude.{
  ℕ, String, ℤ, pos, int_eq, leb_ℤ, Bool, true, false, not, ◌&&◌, ◌||◌, string_eq, ◌==◌, Option,
  none, some, List, [], ◌∷◌, ◌*◌, if◌then◌else◌,
}
use bananagine.Service.{Result, ok, err}
use bananagine.HostAgent.Types.{PrincipalCredential, Config}

-- The parts of url.URL that are read; `hostname` has no port.
pub record Endpoint : Type 0 where
  pub scheme : String
  pub host : String
  pub hostname : String

abbrev pub second : ℕ
second = 1000000000

abbrev pub is_empty : List PrincipalCredential → Bool
is_empty [] = true
is_empty (_ ∷ _) = false

abbrev pub or_default : ℤ → ℤ → ℤ
or_default value default = if value == pos 0 then default else value

abbrev pub outside : ℤ → ℤ → ℤ → Bool
outside value low high = not (leb_ℤ low value) || not (leb_ℤ value high)

abbrev pub local_http : Endpoint → Bool
local_http e =
    e.scheme == "http"
    && (e.hostname == "127.0.0.1" || e.hostname == "::1" || e.hostname == "localhost")

unfoldable pub with_defaults : Config → Config
with_defaults cfg = record cfg {
  lease = or_default cfg.lease (pos (60 * second));
  max_actions = or_default cfg.max_actions (pos 8);
  retry_delay = or_default cfg.retry_delay (pos (5 * second));
}

-- The bounds, checked in their order after the defaults.
unfoldable pub bounds_checked : Config → Bool → Result String Config
bounds_checked cfg has_transport =
    if outside cfg.lease (pos second) (pos (300 * second))
    then err "invalid assignment lease"
    else if outside cfg.max_actions (pos 1) (pos 64)
    then err "invalid action bound"
    else if outside cfg.retry_delay (pos second) (pos (3600 * second))
    then err "invalid retry delay"
    else if not has_transport
    then err "host agent requires transport"
    else ok cfg

-- None stands for the panic of reading the scheme of an endpoint that does not parse.
unfoldable pub new_with_transport :
    (String → Option Endpoint) → Config → Bool → Bool → Option (Result String Config)
unfolding with_defaults bounds_checked
new_with_transport parse cfg has_transport has_engine =
    if cfg.base_url == ""
      || cfg.host_id == ""
      || cfg.agent_id == ""
      || is_empty cfg.principals
      || not has_engine
    then some (err "host agent requires local endpoint, identity, principal, and engine")
    else (elim (parse cfg.base_url) [
      | none ↦ none
      | some endpoint ↦
          if endpoint.host == "" || not (endpoint.scheme == "https") && not (local_http endpoint)
          then some (err "host agent endpoint must use TLS")
          else some (bounds_checked (with_defaults cfg) has_transport)
    ])
