-- ===== src/Registry/Invariant.antt =====
-- registry/state.go: what holds of the stored records after any sequence of calls.
use mathlib.Core.Option
use bananagine.Prelude.{
  String, ◌≡◌, ◌≢◌, refl, Option, none, some, List, [], ◌∷◌, arith, string_eq, eq_iff, inl, inr,
  Bool-cases, Option-cases, ◌==◌,
}
use bananagine.Map.{Map, get, put, delete, Unique, get-put, get-delete, put-Unique, delete-Unique}
use bananagine.Registry.Contracts.{
  Match, Server, UpdateRequest, SetPlayersRequest, PutMatchRequest, RemoveMatchRequest, type_game,
}
use bananagine.Registry.Clone.{Keyed, clone_matches-Keyed}
use bananagine.Registry.State.{
  State, new_state, clone_match, clone_server, with_matches, register, or_keep, apply_update,
  update, unregister, set_players, put_match, remove_match,
}

-- What a record stored under `key` satisfies.
pub record IsStored (key : String) (server : Server) : Type 0 where
  pub named : server.id ≡ key
  pub non_empty : key ≢ ""
  pub keyed : Keyed server.matches
  pub game : server.type ≡ type_game → server.matches ≢ none

pub record IsValid (s : State) : Type 0 where
  pub unique : Unique s.servers
  pub stored :
      (key : String) (server : Server) → get s.servers key ≡ some server → IsStored key server

-- The calls that change the state.
pub data Call : Type 0 where
  registers : Server → Call
  updates : UpdateRequest → Call
  unregisters : String → Call
  sets_players : SetPlayersRequest → Call
  puts_match : PutMatchRequest → Call
  removes_match : RemoveMatchRequest → Call

unfoldable pub step : State → Call → State
step s (registers server) = (register s server).0
step s (updates request) = (update s request).0
step s (unregisters id) = unregister s id
step s (sets_players request) = (set_players s request).0
step s (puts_match request) = (put_match s request).0
step s (removes_match request) = (remove_match s request).0

unfoldable pub run : State → List Call → State
run s [] = s
run s (c ∷ cs) = run (step s c) cs

-- A request's maps are Go maps.
abbrev pub IsWire : Call → Type 0
IsWire (registers server) = Keyed server.matches
IsWire _ = Unit

abbrev pub AllWire : List Call → Type 0
AllWire [] = Unit
AllWire (c ∷ cs) = IsWire c × AllWire cs

or_keep-Keyed : (o : Option (Map String Match)) → Keyed o → Unique (or_keep o [])
or_keep-Keyed none u = tt
or_keep-Keyed (some m) u = u

delete-Keyed :
    (k : String) (o : Option (Map String Match)) → Keyed o → Keyed (Option.map (λ m. delete m k) o)
delete-Keyed k none u = tt
delete-Keyed k (some m) u = delete-Unique m k u

put-IsValid :
    (s : State) (key : String) (server : Server)
    → IsValid s
    → IsStored key server
    → IsValid (record { servers = put s.servers key server })
put-IsValid s key server v i = record {
  unique = put-Unique s.servers key server v.unique;
  stored = λ k x p. ground (arith, get-put s.servers key k server, eq_iff key k, v.stored k x, i);
}

clone-IsStored :
    (key : String) (server : Server) → IsStored key server → IsStored key (clone_server server)
unfolding clone_server
clone-IsStored key server i = record {
  named = i.named;
  non_empty = i.non_empty;
  keyed = clone_matches-Keyed server.matches i.keyed;
  game = λ g. ground (arith, i.game g);
}

with_matches-IsStored :
    (server : Server)
    → server.id ≢ ""
    → Keyed server.matches
    → IsStored server.id (with_matches server)
unfolding with_matches
with_matches-IsStored server h u = record {
  named = refl;
  non_empty = h;
  keyed = ground arith;
  game = λ g. ground (arith, eq_iff server.type type_game);
}

register-IsValid :
    (s : State) (server : Server) → Keyed server.matches → IsValid s → IsValid (register s server).0
unfolding register clone_server with_matches
register-IsValid s server u v = elim (Bool-cases (server.id == "")) [
  | inl e ↦ rw e v
  | inr e ↦
      let h : server.id ≢ "" = ground (arith, eq_iff server.id "") in
      rw e (
        put-IsValid s _ _ v
          (clone-IsStored server.id (with_matches server) (with_matches-IsStored server h u)))
]

update-IsValid : (s : State) (request : UpdateRequest) → IsValid s → IsValid (update s request).0
unfolding update apply_update
update-IsValid s request v = elim (Option-cases (get s.servers request.id)) [
  | inl e ↦ rw (e, update) v
  | inr (server, e) ↦
      let i : IsStored request.id server = v.stored request.id server e in
      rw (e, update)
        (put-IsValid s _ _ v
          (record { named = i.named; non_empty = i.non_empty; keyed = i.keyed; game = i.game }))
]

put_match-IsValid :
    (s : State) (request : PutMatchRequest) → IsValid s → IsValid (put_match s request).0
unfolding put_match
put_match-IsValid s request v = elim (Option-cases (get s.servers request.server_id)) [
  | inl e ↦ rw (e, put_match) v
  | inr (server, e) ↦
      let i : IsStored request.server_id server = v.stored request.server_id server e in
      rw (e, put_match)
        (put-IsValid s _ _ v (record {
          named = i.named;
          non_empty = i.non_empty;
          keyed =
              put-Unique (or_keep server.matches []) request.match_id (clone_match request.match)
                (or_keep-Keyed server.matches i.keyed);
          game = λ g. ground arith;
        }))
]

remove_match-IsValid :
    (s : State) (request : RemoveMatchRequest) → IsValid s → IsValid (remove_match s request).0
unfolding remove_match
remove_match-IsValid s request v = elim (Option-cases (get s.servers request.server_id)) [
  | inl e ↦ rw (e, remove_match) v
  | inr (server, e) ↦
      let i : IsStored request.server_id server = v.stored request.server_id server e in
      rw (e, remove_match)
        (put-IsValid s _ _ v (record {
          named = i.named;
          non_empty = i.non_empty;
          keyed = delete-Keyed request.match_id server.matches i.keyed;
          game = λ g. ground (arith, i.game g);
        }))
]

unregister-IsValid : (s : State) (id : String) → IsValid s → IsValid (unregister s id)
unfolding unregister
unregister-IsValid s id v = record {
  unique = delete-Unique s.servers id v.unique;
  stored = λ k x p. ground (arith, get-delete s.servers id k, v.stored k x);
}

-- Every call on a valid directory leaves a valid one: each key stands once, is not empty and is its
-- record's ID, each record's match map is keyed, and each game server has one.
pub step-IsValid : (s : State) (c : Call) → IsWire c → IsValid s → IsValid (step s c)
unfolding step set_players
step-IsValid s (registers server) w v = register-IsValid s server w v
step-IsValid s (updates request) w v = update-IsValid s request v
step-IsValid s (unregisters id) w v = unregister-IsValid s id v
step-IsValid s (sets_players request) w v = update-IsValid s _ v
step-IsValid s (puts_match request) w v = put_match-IsValid s request v
step-IsValid s (removes_match request) w v = remove_match-IsValid s request v

run-IsValid : (s : State) (cs : List Call) → AllWire cs → IsValid s → IsValid (run s cs)
unfolding run
run-IsValid s [] w v = v
run-IsValid s (c ∷ cs) w v = run-IsValid (step s c) cs w.1 (step-IsValid s c w.0 v)

pub new_state-IsValid : IsValid new_state
unfolding get
new_state-IsValid = record { unique = tt; stored = λ k x p. cc }

-- The invariant after any sequence of calls on a new directory.
pub run_new-IsValid : (cs : List Call) → AllWire cs → IsValid (run new_state cs)
run_new-IsValid cs w = run-IsValid new_state cs w new_state-IsValid
