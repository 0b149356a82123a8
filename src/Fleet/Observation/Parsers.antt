-- ===== src/Fleet/Observation/Parsers.antt =====
-- The parsers of what a container prints: its settings, its game rules, its players and its files.
-- `plain` removes the colour sequences of the terminal (package regexp).
use Prim.Native.Nat.{Ordering}
use Prim.Native.String.{len, compare}
use bananagine.Prelude.{
  ℕ, nat_eq, ltb, String, string_eq, Bool, not, ◌&&◌, ◌||◌, ◌==◌, Option, none, some, List, [], ◌∷◌,
  length, map, if◌then◌else◌,
}
use bananagine.Map.{Map, get, put}
use bananagine.Map.Sorting.{sort_keys}
use bananagine.Service.{Result, ok, err, ◌>>=◌}
use bananagine.Text.{trim_space}
use bananagine.Text.Split.{
  split_at, cut_at, after_last, trim_last, last_field, trim_left_of, trim_right_of,
}
use bananagine.Text.Strings.{has_prefix, has_suffix, to_lower}
use bananagine.Fleet.Tokens.{one_of, no_control, valid_fleet_rule_value}
use bananagine.Fleet.Observation.{
  max_players, max_artifacts, valid_fleet_player_name, valid_fleet_artifact_filename, within,
}

abbrev pub observed_settings : Map String String
observed_settings =
    ("difficulty", "difficulty")
    ∷ ("gamemode", "gamemode")
    ∷ ("pvp", "pvp")
    ∷ ("hardcore", "hardcore")
    ∷ ("allow-nether", "allow_nether")
    ∷ ("spawn-monsters", "spawn_monsters")
    ∷ ("spawn-animals", "spawn_animals")
    ∷ ("view-distance", "view_distance")
    ∷ ("simulation-distance", "simulation_distance")
    ∷ ("motd", "motd")
    ∷ ("white-list", "white_list")
    ∷ []

abbrev pub observed_game_rules : List String
observed_game_rules =
    "announceAdvancements" ∷ "commandBlockOutput" ∷ "doDaylightCycle" ∷ "doImmediateRespawn"
    ∷ "doInsomnia" ∷ "doMobSpawning" ∷ "doWeatherCycle" ∷ "drowningDamage" ∷ "fallDamage"
    ∷ "fireDamage" ∷ "forgiveDeadPlayers" ∷ "keepInventory" ∷ "mobGriefing" ∷ "naturalRegeneration"
    ∷ "playersSleepingPercentage" ∷ "randomTickSpeed" ∷ "showDeathMessages" ∷ "spawnRadius"
    ∷ "universalAnger" ∷ []

-- The line of a setting: its key in the response and its value, none where it is passed over.
unfoldable pub setting_of : String → Option (String × String)
unfolding trim_space trim_last has_prefix cut_at get
setting_of line =
    let text = trim_space (trim_last 13 line) in
    if text == "" || has_prefix text "#" then none else (elim (cut_at b'=' text) [
      | none ↦ none
      | some (key, value) ↦ elim (get observed_settings (trim_space key)) [
        | none ↦ none
        | some response_key ↦ some (response_key, trim_space value)
      ]
    ])

-- From the settings that were read before.
unfoldable pub settings_from : List String → Map String String → Result String (Map String String)
unfolding setting_of no_control put
settings_from [] settings = ok settings
settings_from (line ∷ rest) settings = elim (setting_of line) [
  | none ↦ settings_from rest settings
  | some (key, value) ↦
      let more = settings_from rest (put settings key value) in
      if ltb 256 (len value) || not (no_control value) then err "invalid observed setting" else more
]

unfoldable pub parse_fleet_settings : String → Result String (Map String String)
unfolding within settings_from split_at
parse_fleet_settings output =
    within output "settings observation exceeds limit" (settings_from (split_at 10 output) [])

-- [](){}.,:;"'
abbrev is_bracket : ℕ → Bool
is_bracket c =
    c == b'['
    || c == 93
    || c == b'('
    || c == 41
    || c == b'{'
    || c == b'}'
    || c == b'.'
    || c == b','
    || c == b':'
    || c == b';'
    || c == 34
    || c == 39

-- A line RULE:rule:answer, where there are both.
unfoldable pub rule_line : String → Option (String × String)
unfolding has_prefix cut_at
rule_line line =
    if not (has_prefix line "RULE:")
    then none
    else (elim (cut_at b':' line) [ none ↦ none | some (_, rest) ↦ cut_at b':' rest ])

unfoldable pub rules_from : List String → Map String String → Result String (Map String String)
unfolding rule_line one_of last_field trim_left_of trim_right_of valid_fleet_rule_value put
rules_from [] rules = ok rules
rules_from (line ∷ lines) rules = elim (rule_line line) [
  | none ↦ rules_from lines rules
  | some (rule, answer) ↦
      if not (one_of rule observed_game_rules)
      then err "unexpected gamerule"
      else (elim (last_field answer) [
        | none ↦ rules_from lines rules
        | some field ↦
            let value = trim_right_of is_bracket (trim_left_of is_bracket field) in
            let more = rules_from lines (put rules rule value) in
            if not (valid_fleet_rule_value value) then err "invalid gamerule value" else more
      ])
]

abbrev some_rules : Map String String → Result String (Map String String)
some_rules [] = err "gamerule observation is not ready"
some_rules (r ∷ rules) = ok (r ∷ rules)

unfoldable pub parse_fleet_game_rules :
    (String → String) → String → Result String (Map String String)
unfolding within rules_from split_at
parse_fleet_game_rules plain output =
    within output "gamerule observation exceeds limit"
      (rules_from (split_at 10 (plain output)) [] >>= λ rules. some_rules rules)

-- sort.Strings, by insertion.
unfoldable pub insert_text : String → List String → List String
insert_text text [] = text ∷ []
insert_text text (other ∷ rest) = elim (compare text other) [
  | Ordering.gt ↦ other ∷ insert_text text rest
  | _ ↦ text ∷ other ∷ rest
]

unfoldable pub sort_texts : List String → List String
unfolding insert_text
sort_texts [] = []
sort_texts (text ∷ rest) = insert_text text (sort_texts rest)

unfoldable pub names_of : List String → Result String (List String)
unfolding trim_space valid_fleet_player_name
names_of [] = ok []
names_of (part ∷ rest) =
    let more = names_of rest in
    let name = trim_space part in
    if not (valid_fleet_player_name name)
    then err "invalid player name"
    else (more >>= λ names. ok (name ∷ names))

-- What follows the last colon of the answer to `list`.
unfoldable pub players_of : String → Result String (List String)
unfolding names_of sort_texts split_at
players_of raw =
    let parts = split_at b',' raw in
    let names = names_of parts in
    if raw == ""
    then ok []
    else if ltb max_players (length parts)
    then err "too many players"
    else (names >>= λ players. ok (sort_texts players))

unfoldable pub parse_fleet_players : (String → String) → String → Result String (List String)
unfolding within players_of after_last trim_space
parse_fleet_players plain output =
    within output "player observation exceeds limit" (elim (after_last b':' (plain output)) [
      | none ↦ ok []
      | some rest ↦ players_of (trim_space rest)
    ])

-- The files of a directory by name, from those that were seen; the name of a directory ends in a slash.
unfoldable pub files_from :
    String → List String → Map String (Unit {0}) → Result String (Map String (Unit {0}))
unfolding trim_space trim_last has_suffix to_lower valid_fleet_artifact_filename put
files_from extension [] seen = ok seen
files_from extension (line ∷ rest) seen =
    let name = trim_space (trim_last 13 line) in
    let skipped =
      name == ""
      || not (has_suffix (to_lower name) (to_lower extension))
      || not (valid_fleet_artifact_filename name) in
    let kept = if skipped then seen else put seen name tt in
    let more = files_from extension rest kept in
    if not skipped && ltb max_artifacts (length kept) then err "too many artifacts" else more

unfoldable pub parse_fleet_artifact_filenames : String → String → Result String (List String)
unfolding within files_from split_at sort_keys
parse_fleet_artifact_filenames output extension =
    within output "artifact observation exceeds limit" (
      files_from extension (split_at 10 output) [] >>= λ seen. ok (map (λ p. p.0) (sort_keys seen)))
