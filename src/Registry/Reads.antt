-- ===== src/Registry/Reads.antt =====
-- registry/state.go: what a `Get` sees after each call.
use mathlib.Core.Option
use bananagine.Prelude.{
  String, ℤ, ◌≡◌, ◌≢◌, refl, ◌&&◌, Option, none, some, [], arith, string_eq, eq_iff, inl, inr,
  Option-cases, ◌==◌, if◌then◌else◌,
}
use bananagine.Map.{Map, get, put, delete, get-put, get-put_self, get-delete}
use bananagine.Map.Values.{get-map_values}
use bananagine.Service.{Result, ok, err, ServiceError}
use bananagine.Registry.Contracts.{
  Match, Server, UpdateRequest, PutMatchRequest, RemoveMatchRequest,
}
use bananagine.Registry.Clone.{clone_match_idem, clone_server_idem}
use bananagine.Registry.Invariant.{
  Call, registers, updates, unregisters, sets_players, puts_match, removes_match, step,
}
use bananagine.Registry.State.{
  State, clone_match, clone_server, with_matches, register, lookup, or_keep, apply_update, update,
  set_players, put_match, remove_match,
}

-- A registered server is returned by its ID, and no other ID is affected.
pub lookup-register :
    (s : State) (server : Server) (id : String)
    → server.id ≢ ""
    → lookup (register s server).0 id
      ≡ (if server.id == id then ok (clone_server (with_matches server)) else lookup s id)
unfolding register lookup with_matches clone_server
lookup-register s server id h = ground (
  arith,
  eq_iff server.id "",
  get-put s.servers server.id id (clone_server (with_matches server)),
  clone_server_idem (with_matches server),
)

-- An update returns the record with the fields that the request names, and later reads of the ID
-- return the same; other IDs are unaffected.
pub lookup-update :
    (s : State) (request : UpdateRequest) (server : Server) (id : String)
    → get s.servers request.id ≡ some server
    → ((update s request).1 ≡ ok (clone_server (apply_update request server)))
      × (lookup (update s request).0 id ≡ (
          if request.id == id
          then ok (clone_server (apply_update request server))
          else lookup s id))
unfolding update lookup
lookup-update s request server id h =
    rw (h, update)
      (refl, ground (arith, get-put s.servers request.id id (apply_update request server)))

abbrev pub only_players : String → ℤ → UpdateRequest
only_players id n = record { id = id; players = some n; max_players = none; metadata = none }

-- Setting the players of a server that a read returns changes its player count alone.
pub lookup-set_players :
    (s : State) (id : String) (n : ℤ) (server : Server)
    → lookup s id ≡ ok server
    → let after = set_players s (record { id = id; players = n }) in
      (after.1 ≡ ok (record server { players = n }))
      × (lookup after.0 id ≡ ok (record server { players = n }))
unfolding set_players update lookup apply_update clone_server
lookup-set_players s id n server h = elim (Option-cases (get s.servers id)) [
  | inl e ↦ absurd (ground arith)
  | inr (stored, e) ↦
      ground (arith, get-put_self s.servers id (apply_update (only_players id n) stored))
]

-- A match as a client sees it.
pub match_of : State → String → String → Option Match
match_of s server_id match_id = elim (lookup s server_id) [
  | err _ ↦ none
  | ok server ↦ Option.bind server.matches (λ m. get m match_id)
]

matches_of : Option Server → String → Option Match
matches_of none match_id = none
matches_of (some server) match_id = get (or_keep server.matches []) match_id

match_of_lem :
    (s : State) (j k : String)
    → match_of s j k ≡ Option.map clone_match (matches_of (get s.servers j) k)
unfolding match_of matches_of lookup clone_server get Option.bind
match_of_lem s j k = elim (Option-cases (get s.servers j)) [
  | inl e ↦ ground arith
  | inr (server, e) ↦ ground (arith, get-map_values clone_match (or_keep server.matches []) k)
]

-- The records that `put_match` and `remove_match` store.
abbrev pub with_match : PutMatchRequest → Server → Server
with_match request server = record server {
  matches = some (put (or_keep server.matches []) request.match_id (clone_match request.match));
}

abbrev pub without_match : RemoveMatchRequest → Server → Server
without_match request server = record server {
  matches = Option.map (λ m. delete m request.match_id) server.matches;
}

or_keep-delete :
    (o : Option (Map String Match)) (k j : String)
    → get (or_keep (Option.map (λ m. delete m k) o) []) j
      ≡ (if k == j then none else get (or_keep o []) j)
unfolding get
or_keep-delete none k j = ground arith
or_keep-delete (some m) k j = get-delete m k j

-- A match that is put on a registered server is what the server's reads show under its ID from then
-- on, copied, and no other match of any server changes.
pub match_of-put_match :
    (s : State) (request : PutMatchRequest) (server : Server) (j k : String)
    → get s.servers request.server_id ≡ some server
    → match_of (put_match s request).0 j k ≡ (
        if request.server_id == j && request.match_id == k
        then some (clone_match request.match)
        else match_of s j k)
unfolding put_match matches_of
match_of-put_match s request server j k h = simp match_of_lem (
    rw (h, put_match)
      (ground (
        arith,
        h,
        eq_iff request.server_id j,
        get-put s.servers request.server_id j (with_match request server),
        get-put (or_keep server.matches []) request.match_id k (clone_match request.match),
        clone_match_idem request.match,
      )))

-- After a removal that finds its server the match is gone, and no other match of any server changes.
pub match_of-remove_match :
    (s : State) (request : RemoveMatchRequest) (server : Server) (j k : String)
    → get s.servers request.server_id ≡ some server
    → match_of (remove_match s request).0 j k
      ≡ (if request.server_id == j && request.match_id == k then none else match_of s j k)
unfolding remove_match matches_of
match_of-remove_match s request server j k h = simp match_of_lem (
    rw (h, remove_match)
      (ground (
        arith,
        h,
        eq_iff request.server_id j,
        get-put s.servers request.server_id j (without_match request server),
        or_keep-delete server.matches request.match_id k,
      )))

abbrev error_of {ℓ} : {A : Type ℓ} → Result ServiceError A → Option ServiceError
error_of (ok a) = none
error_of (err e) = some e

-- The error that a call returns, if any.
unfoldable pub failure : State → Call → Option ServiceError
failure s (registers server) = error_of (register s server).1
failure s (updates request) = error_of (update s request).1
failure s (unregisters id) = none
failure s (sets_players request) = error_of (set_players s request).1
failure s (puts_match request) = error_of (put_match s request).1
failure s (removes_match request) = error_of (remove_match s request).1

-- A call that returns an error leaves the directory as it was.
pub step-eq_of_failure :
    (s : State) (c : Call) (e : ServiceError) → failure s c ≡ some e → step s c ≡ s
unfolding failure step register update set_players put_match remove_match
step-eq_of_failure s (registers server) e h = ground arith
step-eq_of_failure s (updates request) e h = ground arith
step-eq_of_failure s (unregisters id) e h = ground arith
step-eq_of_failure s (sets_players request) e h = ground arith
step-eq_of_failure s (puts_match request) e h = ground arith
step-eq_of_failure s (removes_match request) e h = ground arith
