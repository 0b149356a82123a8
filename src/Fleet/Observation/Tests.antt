-- ===== src/Fleet/Observation/Tests.antt =====
-- Runs of the parsers of pulp-cell/fleet_observation_routes.go at concrete inputs.
use bananagine.Prelude.{List, some, [], ◌∷◌, ◌≡◌, refl}
use bananagine.Service.{ok}
use bananagine.Fleet.Observation.Identities.{
  Messages, SnapshotIdentity, whitelist_entry, parse_identities,
}
use bananagine.Fleet.Observation.Identities.Inventory.{Inventory, parse_identities-Inventory}
use bananagine.Fleet.Observation.AccessLists.{parse_fleet_access_identities}
use bananagine.Fleet.Observation.Parsers.{
  parse_fleet_players, parse_fleet_settings, parse_fleet_game_rules, parse_fleet_artifact_filenames,
}

abbrev messages : Messages
messages = record {
  undecoded = "undecoded";
  too_many = "too many";
  invalid = "invalid";
  duplicate = "duplicate";
}

abbrev steve : SnapshotIdentity
steve = record { uuid = "069a79f4-44e9-4726-a5be-fca90e38aaf5"; name = "Steve" }

abbrev alex : SnapshotIdentity
alex = record { uuid = "00000000-44e9-4726-a5be-fca90e38aaf5"; name = "Alex" }

sorted :
    parse_identities messages whitelist_entry (λ text. some (steve ∷ alex ∷ [])) "[]"
    ≡ ok (alex ∷ steve ∷ [])
unfolding parse_identities whitelist_entry bananagine.Map.get bananagine.Map.put
sorted = refl

parse_identities-Inventory_example :
    (source : List SnapshotIdentity) × (some (steve ∷ alex ∷ []) ≡ some source)
    × Inventory messages whitelist_entry source (alex ∷ steve ∷ [])
parse_identities-Inventory_example =
    parse_identities-Inventory messages whitelist_entry (λ text. some (steve ∷ alex ∷ [])) "[]"
      (alex ∷ steve ∷ []) sorted

lists_players :
    parse_fleet_players (λ text. text) "There are 2 of a max of 20 players online: Steve, Alex"
    ≡ ok ("Alex" ∷ "Steve" ∷ [])
unfolding parse_fleet_players
lists_players = refl

reads_rule :
    parse_fleet_game_rules
      (λ text. text)
      "RULE:keepInventory:Gamerule keepInventory is currently set to: true"
    ≡ ok (("keepInventory", "true") ∷ [])
unfolding parse_fleet_game_rules
reads_rule = refl

lists_mods :
    parse_fleet_artifact_filenames "b.jar\nnotes.txt\nlib/\na.JAR\n" ".jar"
    ≡ ok ("a.JAR" ∷ "b.jar" ∷ [])
unfolding parse_fleet_artifact_filenames
lists_mods = refl

reads_settings :
    parse_fleet_settings "#Minecraft\npvp=true\nwhite-list = false\nserver-port=25565\n"
    ≡ ok (("pvp", "true") ∷ ("white_list", "false") ∷ [])
unfolding parse_fleet_settings
reads_settings = refl

sorts_identities :
    parse_fleet_access_identities
      (λ text.
        some (record { uuid = ""; name = "Steve " } ∷ record { uuid = "ab"; name = "Alex" } ∷ []))
      "[]"
    ≡ ok (record { uuid = "ab"; name = "Alex" } ∷ record { uuid = ""; name = "Steve" } ∷ [])
unfolding parse_fleet_access_identities
sorts_identities = refl
