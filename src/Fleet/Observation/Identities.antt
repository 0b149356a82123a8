-- ===== src/Fleet/Observation/Identities.antt =====
-- The identities in the files of a runtime: the player history and the access lists. Each parser trims
-- and checks every entry, refuses a second entry of one UUID, and sorts by UUID. `decode` is the strict
-- decoding of the JSON.
pub mod Inventory
use bananagine.Prelude.{
  ltb, String, string_eq, ℤ, pos, leb_ℤ, Bool, not, ◌||◌, Option, none, some, List, [], ◌∷◌, ◌++◌,
  map, length, if◌then◌else◌,
}
use bananagine.Map.{Map, get, put}
use bananagine.Map.Sorting.{sort_keys}
use bananagine.Service.{Result, ok, err, ◌>>=◌}
use bananagine.Text.{trim_space}
use bananagine.Fleet.Observation.{
  max_identities, valid_fleet_observation_uuid, valid_fleet_observed_identity_name,
  valid_fleet_observed_text, within,
}

pub record HistoryEntry : Type 0 where
  pub uuid : String
  pub name : String
  pub expires_on : String

pub record SnapshotIdentity : Type 0 where
  pub uuid : String
  pub name : String

-- `bypasses_player_limit` is none where the file leaves it out.
pub record OperatorSource : Type 0 where
  pub uuid : String
  pub name : String
  pub level : ℤ
  pub bypasses_player_limit : Option Bool

pub record SnapshotOperator : Type 0 where
  pub uuid : String
  pub name : String
  pub level : ℤ
  pub bypasses_player_limit : Bool

pub record SnapshotBan : Type 0 where
  pub uuid : String
  pub name : String
  pub created : String
  pub source : String
  pub expires : String
  pub reason : String

-- The errors of a parser.
pub record Messages : Type 0 where
  pub undecoded : String
  pub too_many : String
  pub invalid : String
  pub duplicate : String

-- The loop: `seen` holds the UUIDs, `result` the entries in the order of the file, each with the UUID
-- that sort.Slice compares. `entry_of` trims and checks a source entry.
unfoldable pub collect :
    {S E : Type 0}
    → Messages
    → (S → Option (String × E))
    → List S
    → Map String (Unit {0})
    → List (String × E)
    → Result String (List (String × E))
collect messages entry_of [] seen result = ok result
collect messages entry_of (s ∷ rest) seen result = elim (entry_of s) [
  | none ↦ err messages.invalid
  | some (uuid, entry) ↦ elim (get seen uuid) [
    | some _ ↦ err messages.duplicate
    | none ↦ collect messages entry_of rest (put seen uuid tt) (result ++ (uuid, entry) ∷ [])
  ]
]

abbrev entries_of : {E : Type 0} → List (String × E) → List E
entries_of result = map (λ p. p.1) result

unfoldable pub parse_identities :
    {S E : Type 0}
    → Messages
    → (S → Option (String × E))
    → (String → Option (List S))
    → String
    → Result String (List E)
unfolding collect sort_keys within
parse_identities messages entry_of decode output =
    within output messages.undecoded (elim (decode output) [
      | none ↦ err messages.undecoded
      | some source ↦
          let collected = collect messages entry_of source [] [] in
          if ltb max_identities (length source)
          then err messages.too_many
          else (collected >>= λ result. ok (entries_of (sort_keys result)))
    ])

unfoldable pub history_entry : HistoryEntry → Option (String × HistoryEntry)
unfolding trim_space valid_fleet_observation_uuid valid_fleet_observed_identity_name
    valid_fleet_observed_text
history_entry e =
    let uuid = trim_space e.uuid in
    let name = trim_space e.name in
    let expires_on = trim_space e.expires_on in
    if not (valid_fleet_observation_uuid uuid)
      || not (valid_fleet_observed_identity_name name)
      || not (valid_fleet_observed_text expires_on 64)
    then none
    else some (uuid, record { uuid = uuid; name = name; expires_on = expires_on })

unfoldable pub parse_fleet_player_history :
    (String → Option (List HistoryEntry)) → String → Result String (List HistoryEntry)
unfolding parse_identities history_entry
parse_fleet_player_history decode =
    parse_identities
      (record {
        undecoded = "invalid player history observation";
        too_many = "too many player history identities";
        invalid = "invalid player history identity";
        duplicate = "duplicate player history identity";
      })
      history_entry decode

unfoldable pub whitelist_entry : SnapshotIdentity → Option (String × SnapshotIdentity)
unfolding trim_space valid_fleet_observation_uuid valid_fleet_observed_identity_name
whitelist_entry e =
    let uuid = trim_space e.uuid in
    let name = trim_space e.name in
    if not (valid_fleet_observation_uuid uuid) || not (valid_fleet_observed_identity_name name)
    then none
    else some (uuid, record { uuid = uuid; name = name })

unfoldable pub parse_fleet_access_snapshot_whitelist :
    (String → Option (List SnapshotIdentity)) → String → Result String (List SnapshotIdentity)
unfolding parse_identities whitelist_entry
parse_fleet_access_snapshot_whitelist decode =
    parse_identities
      (record {
        undecoded = "invalid access snapshot whitelist";
        too_many = "too many access snapshot whitelist identities";
        invalid = "invalid access snapshot whitelist identity";
        duplicate = "duplicate access snapshot whitelist identity";
      })
      whitelist_entry decode

unfoldable pub operator_entry : OperatorSource → Option (String × SnapshotOperator)
unfolding trim_space valid_fleet_observation_uuid valid_fleet_observed_identity_name
operator_entry e =
    let uuid = trim_space e.uuid in
    let name = trim_space e.name in
    if not (valid_fleet_observation_uuid uuid)
      || not (valid_fleet_observed_identity_name name)
      || not (leb_ℤ (pos 1) e.level)
      || not (leb_ℤ e.level (pos 4))
    then none
    else (elim e.bypasses_player_limit [
      | none ↦ none
      | some bypasses ↦ some (
        uuid,
        record { uuid = uuid; name = name; level = e.level; bypasses_player_limit = bypasses },
      )
    ])

unfoldable pub parse_fleet_access_snapshot_ops :
    (String → Option (List OperatorSource)) → String → Result String (List SnapshotOperator)
unfolding parse_identities operator_entry
parse_fleet_access_snapshot_ops decode =
    parse_identities
      (record {
        undecoded = "invalid access snapshot ops";
        too_many = "too many access snapshot ops";
        invalid = "invalid access snapshot operator";
        duplicate = "duplicate access snapshot operator";
      })
      operator_entry decode

unfoldable pub ban_entry : SnapshotBan → Option (String × SnapshotBan)
unfolding trim_space valid_fleet_observation_uuid valid_fleet_observed_identity_name
    valid_fleet_observed_text
ban_entry e =
    let trimmed : SnapshotBan = record {
      uuid = trim_space e.uuid;
      name = trim_space e.name;
      created = trim_space e.created;
      source = trim_space e.source;
      expires = trim_space e.expires;
      reason = trim_space e.reason;
    } in
    if not (valid_fleet_observation_uuid trimmed.uuid)
      || not (valid_fleet_observed_identity_name trimmed.name)
      || not (valid_fleet_observed_text trimmed.created 64)
      || not (valid_fleet_observed_text trimmed.source 64)
      || not (valid_fleet_observed_text trimmed.expires 64)
      || not (valid_fleet_observed_text trimmed.reason 512)
    then none
    else some (trimmed.uuid, trimmed)

unfoldable pub parse_fleet_access_snapshot_bans :
    (String → Option (List SnapshotBan)) → String → Result String (List SnapshotBan)
unfolding parse_identities ban_entry
parse_fleet_access_snapshot_bans decode =
    parse_identities
      (record {
        undecoded = "invalid access snapshot bans";
        too_many = "too many access snapshot bans";
        invalid = "invalid access snapshot ban";
        duplicate = "duplicate access snapshot ban";
      })
      ban_entry decode
