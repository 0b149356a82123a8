-- ===== src/Fleet/Observation.antt =====
-- pulp-cell/fleet_observation_routes.go: what a fleet may read of a runtime, and the validators of the
-- texts that are read.
pub mod Parsers
pub mod Identities
pub mod AccessLists
mod Tests
use Prim.Native.String.{len}
use bananagine.Prelude.{
  ℕ, suc, ◌+◌, ◌-◌, ◌*◌, leb, ltb, nat_eq, String, string_eq, Bool, true, false, not, ◌&&◌, ◌||◌,
  ◌==◌, Option, none, some, List, [], ◌∷◌, length, if◌then◌else◌,
}
use bananagine.Service.{Result, ok, err}
use bananagine.Text.{codes, trim_space, is_digit, is_lower, is_upper}
use bananagine.Text.Strings.{contains}
use bananagine.Text.Identity.{all_codes, is_control}
use bananagine.Fleet.Tokens.{hex_char, name_char, no_control}

abbrev pub max_bytes : ℕ
max_bytes = 65536

abbrev pub max_players : ℕ
max_players = 256

abbrev pub max_identities : ℕ
max_identities = 512

abbrev pub max_artifacts : ℕ
max_artifacts = 256

unfoldable pub valid_fleet_player_name : String → Bool
valid_fleet_player_name value =
    if len value == 0 || ltb 64 (len value) then false else all_codes name_char (codes value)

unfoldable pub valid_fleet_access_uuid : String → Bool
valid_fleet_access_uuid value =
    if value == ""
    then true
    else if ltb 64 (len value)
    then false
    else all_codes (λ c. hex_char c || leb b'A' c && leb c b'F' || c == b'-') (codes value)

-- The loop's index counts bytes; every character before is of one byte.
unfoldable pub uuid_from : ℕ → List ℕ → Bool
uuid_from i [] = true
uuid_from i (c ∷ cs) =
    (if i == 8 || i == 13 || i == 18 || i == 23 then c == b'-' else hex_char c)
    && uuid_from (suc i) cs

unfoldable pub valid_fleet_observation_uuid : String → Bool
unfolding uuid_from
valid_fleet_observation_uuid value =
    if not (len value == 36) then false else uuid_from 0 (codes value)

unfoldable pub valid_fleet_observed_identity_name : String → Bool
valid_fleet_observed_identity_name value =
    if len value == 0 || ltb 32 (len value)
    then false
    else all_codes (λ c. name_char c || c == b'.' || c == b'-' || c == b' ') (codes value)

unfoldable pub valid_fleet_observed_text : String → ℕ → Bool
unfolding trim_space no_control
valid_fleet_observed_text value limit =
    not (value == "") && leb (len value) limit && trim_space value == value && no_control value

unfoldable pub valid_fleet_artifact_filename : String → Bool
unfolding no_control
valid_fleet_artifact_filename value =
    if value == ""
      || ltb 255 (len value)
      || value == "."
      || value == ".."
      || not (all_codes (λ c. not (c == b'/' || c == 92)) (codes value))
    then false
    else no_control value

-- A bound on what was read, then its parsing.
unfoldable pub within {ℓ} : {A : Type ℓ} → String → String → Result String A → Result String A
within output message parsed = if ltb max_bytes (len output) then err message else parsed

unfoldable pub fleet_artifact_inventory_within_bound : List String → List String → Bool
fleet_artifact_inventory_within_bound datapacks mods =
    leb (length datapacks) max_artifacts && leb (length mods + length datapacks) max_artifacts
