-- ===== src/TemplateCatalog/State.antt =====
-- templatecatalog/state.go. Whether a text is valid JSON and the fingerprint of the sorted entries (their
-- JSON, or none if they cannot be encoded) are parameters. The nil receiver is not modelled.
use Prim.Native.Nat.{Ordering}
use Prim.Native.String.{compare}
use bananagine.Prelude.{
  ℕ, ◌+◌, ◌%◌, ◌^◌, String, int_eq, Bool, not, ◌&&◌, string_eq, ◌==◌, Option, none, some, List, [],
  ◌∷◌, if◌then◌else◌,
}
use bananagine.Map.{Map, get, put}
use bananagine.Text.{trim_space}
use bananagine.Service.{Result, ok, err, ServiceError, invalid, conflict, not_found, internal}
use bananagine.Allocation.Capacity.{Float64}
use bananagine.TemplateCatalog.Contracts.{
  Entry, ReplaceRequest, Catalog, Snapshot, ImportRequest, snapshot_version,
}

module _ (f : Float64) where
  pub record State : Type 0 where
    pub revision : ℕ
    pub entries : Map String (Entry f)
    pub requests : Map String String

  abbrev pub new_state : State
  new_state = record { revision = 0; entries = []; requests = [] }

  -- json.Valid, and json.Marshal of the entries in the order of their names.
  pub record Json : Type 0 where
    pub valid : String → Bool
    pub marshal : List (Entry f) → Option String

  -- sort.Strings on the names, by insertion.
  unfoldable pub insert_entry : String → Entry f → Map String (Entry f) → Map String (Entry f)
  insert_entry name entry [] = (name, entry) ∷ []
  insert_entry name entry ((other, o) ∷ rest) = elim (compare name other) [
    | Ordering.lt ↦ (name, entry) ∷ (other, o) ∷ rest
    | Ordering.eq ↦ (name, entry) ∷ (other, o) ∷ rest
    | Ordering.gt ↦ (other, o) ∷ insert_entry name entry rest
  ]

  unfoldable pub sort_entries : Map String (Entry f) → Map String (Entry f)
  unfolding insert_entry
  sort_entries [] = []
  sort_entries ((name, entry) ∷ rest) = insert_entry name entry (sort_entries rest)

  unfoldable pub values : Map String (Entry f) → List (Entry f)
  values [] = []
  values ((name, entry) ∷ rest) = entry ∷ values rest

  unfoldable pub catalog : State → Catalog f
  unfolding sort_entries values
  catalog s = record { revision = s.revision; entries = values (sort_entries s.entries) }

  -- The entry as it is stored: trimmed, and with an empty object for a missing configuration.
  unfoldable pub trimmed : Entry f → Entry f
  trimmed entry = record entry {
    name = trim_space entry.name;
    game = trim_space entry.game;
    config_json = if entry.config_json == "" then "{}" else entry.config_json;
  }

  -- What is wrong with a trimmed entry beside those before it, if anything.
  unfoldable pub defect : Json → Map String (Entry f) → Entry f → Option ServiceError
  defect json entries entry =
      if entry.name == ""
      then some (invalid "template name is required")
      else if entry.game == ""
      then some (invalid "template game is required")
      else (elim (get entries entry.name) [
        | some _ ↦ some (conflict "duplicate template name")
        | none ↦
            if not (json.valid entry.config_json)
            then some (invalid "template config_json is invalid")
            else if not (entry.runtime_json == "") && not (json.valid entry.runtime_json)
            then some (invalid "template runtime_json is invalid")
            else none
      ])

  -- The loop of `validateEntries`.
  unfoldable pub collect :
      Json → Map String (Entry f) → List (Entry f) → Result ServiceError (Map String (Entry f))
  unfolding defect trimmed
  collect json entries [] = ok entries
  collect json entries (entry ∷ rest) =
      let more = collect json (put entries (trimmed entry).name (trimmed entry)) rest in
      elim (defect json entries (trimmed entry)) [ some e ↦ err e | none ↦ more ]

  unfoldable pub encode :
      Json → Map String (Entry f) → Result ServiceError (Map String (Entry f) × String)
  unfolding sort_entries values
  encode json entries = elim (json.marshal (values (sort_entries entries))) [
    | none ↦ err (internal "encode template catalog fingerprint")
    | some fingerprint ↦ ok (entries, fingerprint)
  ]

  unfoldable pub validate_entries :
      Json → List (Entry f) → Result ServiceError (Map String (Entry f) × String)
  unfolding collect encode
  validate_entries json source = elim (collect json [] source) [
    | err e ↦ err e
    | ok entries ↦ encode json entries
  ]

  abbrev pub Reply : Type 0
  Reply = Result ServiceError (Catalog f) × State

  -- The end of `Replace` and `Import`: a known request is answered from the state, and a new one sets
  -- the entries and the revision.
  unfoldable pub record_request :
      State → String → Map String (Entry f) → String → ℕ → String → Reply
  unfolding catalog
  record_request s request_id entries fingerprint revision reused =
      let next : State = record {
        revision = revision;
        entries = entries;
        requests = put s.requests request_id fingerprint;
      } in
      elim (get s.requests request_id) [
        | some prior ↦
            if not (prior == fingerprint) then (err (conflict reused), s) else (ok (catalog s), s)
        | none ↦ (ok (catalog next), next)
      ]

  -- `s.revision++` on an uint64.
  unfoldable pub replace : Json → State → ReplaceRequest f → Reply
  unfolding validate_entries record_request
  replace json s request =
      if trim_space request.request_id == ""
      then (err (invalid "request_id is required"), s)
      else (elim (validate_entries json request.entries) [
        | err e ↦ (err e, s)
        | ok (entries, fingerprint) ↦
            record_request s (trim_space request.request_id) entries fingerprint
              ((s.revision + 1) % 2 ^ 64) "request_id was already used for a different catalog"
      ])

  unfoldable pub lookup : State → String → Result ServiceError (Entry f)
  lookup s name =
      if trim_space name == ""
      then err (invalid "template name is required")
      else (elim (get s.entries (trim_space name)) [
        | none ↦ err (not_found "template not found")
        | some entry ↦ ok entry
      ])

  unfoldable pub export : State → Snapshot f
  unfolding catalog
  export s = record {
    version = snapshot_version;
    revision = s.revision;
    entries = (catalog s).entries;
  }

  unfoldable pub import : Json → State → ImportRequest f → Reply
  unfolding validate_entries record_request
  import json s request =
      if not (request.snapshot.version == snapshot_version)
      then (err (invalid "unsupported template catalog snapshot version"), s)
      else (elim (validate_entries json request.snapshot.entries) [
        | err e ↦ (err e, s)
        | ok (entries, fingerprint) ↦
            if trim_space request.request_id == ""
            then (err (invalid "request_id is required"), s)
            else record_request s (trim_space request.request_id) entries fingerprint
                request.snapshot.revision "request_id was already used for a different snapshot"
      ])
