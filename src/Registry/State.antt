-- ===== src/Registry/State.antt =====
-- registry/state.go. A method on `*State` returns the new state beside its result; the copies that
-- `cloneServer` makes are values here, so a caller never holds a part of the state.
use mathlib.Core.Option
use bananagine.Prelude.{
  String, Bool, false, not, ◌&&◌, ◌||◌, ◌==◌, Option, none, some, List, [], ◌∷◌, leb_ℤ,
  if◌then◌else◌, string_eq,
}
use bananagine.Map.{Map, get, put, delete}
use bananagine.Map.Values.{map_values}
use bananagine.Service.{Result, ok, err, ServiceError, invalid, not_found}
use bananagine.Registry.Contracts.{
  Match, Server, ListRequest, UpdateRequest, SetPlayersRequest, PutMatchRequest, RemoveMatchRequest,
  type_game, status_ready,
}

pub record State : Type 0 where
  pub servers : Map String Server

abbrev pub new_state : State
new_state = record { servers = [] }

-- append([]string(nil), players...): a copy of an empty slice is nil.
unfoldable pub clone_players : Option (List String) → Option (List String)
clone_players none = none
clone_players (some []) = none
clone_players (some (p ∷ ps)) = some (p ∷ ps)

unfoldable pub clone_match : Match → Match
clone_match match = record match { players = clone_players match.players }

-- A copy of a map has the same entries.
abbrev pub clone_strings : Option (Map String String) → Option (Map String String)
clone_strings none = none
clone_strings (some values) = some (map_values (λ v. v) values)

unfoldable pub clone_server : Server → Server
clone_server server = record server {
  matches = Option.map (map_values clone_match) server.matches;
  metadata = clone_strings server.metadata;
}

unfoldable pub has_ready : Map String Match → Bool
has_ready [] = false
has_ready ((_, match) ∷ rest) = match.status == status_ready || has_ready rest

-- A range over a nil map makes no round.
unfoldable pub has_ready_match : Server → Bool
has_ready_match server = elim server.matches [ none ↦ false | some matches ↦ has_ready matches ]

-- if server.Type == TypeGame && server.Matches == nil { server.Matches = make(…) }
unfoldable pub with_matches : Server → Server
with_matches server = record server {
  matches = elim server.matches [
    | none ↦ if server.type == type_game then some [] else none
    | some matches ↦ some matches
  ];
}

unfoldable pub register : State → Server → State × Result ServiceError Server
register s server =
    if server.id == ""
    then (s, err (invalid "Server ID required"))
    else (let stored = clone_server (with_matches server) in
        (record { servers = put s.servers stored.id stored }, ok (clone_server stored)))

-- The tests of the loop in `List`: true if no `continue` is reached.
unfoldable pub selected : ListRequest → Server → Bool
selected filter server =
    not (not (filter.type == "") && not (server.type == filter.type))
    && not (not (filter.mode == "") && not (server.mode == filter.mode))
    && not (filter.has_capacity && leb_ℤ server.max_players server.players)
    && not (filter.has_ready_match && not (has_ready_match server))

unfoldable pub collect : ListRequest → Map String Server → List Server
collect filter [] = []
collect filter ((_, server) ∷ rest) =
    if selected filter server
    then clone_server server ∷ collect filter rest
    else collect filter rest

unfoldable pub list : State → ListRequest → List Server
list s filter = collect filter s.servers

unfoldable pub lookup : State → String → Result ServiceError Server
lookup s id = elim (get s.servers id) [
  | none ↦ err (not_found "Server not found")
  | some server ↦ ok (clone_server server)
]

abbrev pub or_keep {ℓ} : {A : Type ℓ} → Option A → A → A
or_keep none old = old
or_keep (some new) old = new

-- The three `if request.X != nil` of `Update`.
unfoldable pub apply_update : UpdateRequest → Server → Server
apply_update request server = record server {
  players = or_keep request.players server.players;
  max_players = or_keep request.max_players server.max_players;
  metadata = elim request.metadata [
    | none ↦ server.metadata
    | some values ↦ clone_strings (some values)
  ];
}

unfoldable pub update : State → UpdateRequest → State × Result ServiceError Server
update s request = elim (get s.servers request.id) [
  | none ↦ (s, err (not_found "Server not found"))
  | some server ↦
      let server' = apply_update request server in
      (record { servers = put s.servers request.id server' }, ok (clone_server server'))
]

unfoldable pub unregister : State → String → State
unregister s id = record { servers = delete s.servers id }

unfoldable pub set_players : State → SetPlayersRequest → State × Result ServiceError Server
unfolding update
set_players s request = update s (record {
  id = request.id;
  players = some request.players;
  max_players = none;
  metadata = none;
})

unfoldable pub put_match : State → PutMatchRequest → State × Result ServiceError Match
put_match s request = elim (get s.servers request.server_id) [
  | none ↦ (s, err (not_found "Server not found"))
  | some server ↦
      let match = clone_match request.match in
      let server' : Server = record server {
        matches = some (put (or_keep server.matches []) request.match_id match);
      } in
      (record { servers = put s.servers request.server_id server' }, ok (clone_match match))
]

-- delete on a nil map does nothing.
unfoldable pub remove_match : State → RemoveMatchRequest → State × Result ServiceError (Unit {0})
remove_match s request = elim (get s.servers request.server_id) [
  | none ↦ (s, err (not_found "server not found"))
  | some server ↦
      let server' : Server = record server {
        matches = Option.map (λ m. delete m request.match_id) server.matches;
      } in
      (record { servers = put s.servers request.server_id server' }, ok tt)
]
