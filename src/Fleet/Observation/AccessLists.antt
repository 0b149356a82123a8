-- ===== src/Fleet/Observation/AccessLists.antt =====
-- parseFleetAccessIdentities: the names in an access list, where a UUID may be missing or occur twice.
-- `decode` is the decoding of the JSON.
use Prim.Native.Nat.{Ordering}
use Prim.Native.String.{compare}
use bananagine.Prelude.{
  ltb, String, string_eq, Bool, true, false, not, ◌||◌, ◌==◌, Option, none, some, List, [], ◌∷◌,
  length, if◌then◌else◌,
}
use bananagine.Service.{Result, ok, err, ◌>>=◌}
use bananagine.Text.{trim_space}
use bananagine.Fleet.Observation.{
  max_identities, valid_fleet_player_name, valid_fleet_access_uuid, within,
}

pub record AccessIdentity : Type 0 where
  pub uuid : String
  pub name : String

abbrev is_less : String → String → Bool
is_less a b = elim (compare a b) [ Ordering.lt ↦ true | _ ↦ false ]

-- By name, then by UUID.
unfoldable pub goes_before : AccessIdentity → AccessIdentity → Bool
goes_before a b = if a.name == b.name then is_less a.uuid b.uuid else is_less a.name b.name

unfoldable pub insert_identity : AccessIdentity → List AccessIdentity → List AccessIdentity
unfolding goes_before
insert_identity a [] = a ∷ []
insert_identity a (b ∷ rest) =
    let later = b ∷ insert_identity a rest in if goes_before b a then later else a ∷ b ∷ rest

unfoldable pub sort_identities : List AccessIdentity → List AccessIdentity
unfolding insert_identity
sort_identities [] = []
sort_identities (a ∷ rest) = insert_identity a (sort_identities rest)

unfoldable pub identities_of : List AccessIdentity → Result String (List AccessIdentity)
unfolding trim_space valid_fleet_player_name valid_fleet_access_uuid
identities_of [] = ok []
identities_of (a ∷ rest) =
    let more = identities_of rest in
    let name = trim_space a.name in
    let uuid = trim_space a.uuid in
    if not (valid_fleet_player_name name) || not (valid_fleet_access_uuid uuid)
    then err "invalid access identity"
    else (more >>= λ identities. ok (record { uuid = uuid; name = name } ∷ identities))

unfoldable pub parse_fleet_access_identities :
    (String → Option (List AccessIdentity)) → String → Result String (List AccessIdentity)
unfolding within identities_of sort_identities
parse_fleet_access_identities decode output =
    within output "access observation exceeds limit" (elim (decode output) [
      | none ↦ err "invalid access observation"
      | some source ↦
          let checked = identities_of source in
          if ltb max_identities (length source)
          then err "too many access identities"
          else (checked >>= λ identities. ok (sort_identities identities))
    ])
