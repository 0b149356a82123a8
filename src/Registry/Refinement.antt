-- ===== src/Registry/Refinement.antt =====
-- registry/state.go against a directory that is a function from IDs to servers: what a client has to
-- know of the calls, without the order or the representation of the map.
use mathlib.Core.Option
use mathlib.Core.Path.{fun_ext}
use bananagine.Prelude.{
  String, ◌≡◌, refl, ap, ◌∙◌, Option, none, some, List, [], ◌∷◌, string_eq, eq_iff, inl, inr,
  Option-cases, Bool-cases, ◌==◌, if◌then◌else◌, subst,
}
use bananagine.Map.{Map, get, put, get-put, get-delete}
use bananagine.Service.{Result, ok, err, ServiceError, not_found}
use bananagine.Registry.Contracts.{Server}
use bananagine.Registry.Invariant.{
  Call, registers, updates, unregisters, sets_players, puts_match, removes_match, step, run,
}
use bananagine.Registry.Reads.{only_players, with_match, without_match}
use bananagine.Registry.State.{
  State, new_state, clone_server, with_matches, apply_update, register, update, unregister,
  set_players, put_match, remove_match, lookup,
}

abbrev pub Directory : Type 0
Directory = String → Option Server

abbrev pub empty : Directory
empty id = none

-- The entry of one ID is set or cleared.
abbrev set_at : String → Option Server → Directory → Directory
set_at id entry d j = if id == j then entry else d j

-- The entry of one ID is changed, if there is one.
abbrev change_at : String → (Server → Server) → Directory → Directory
change_at id change d j = if id == j then Option.map change (d j) else d j

-- What each call does to the directory.
unfoldable pub does : Call → Directory → Directory
does (registers server) d =
    if server.id == "" then d else set_at server.id (some (clone_server (with_matches server))) d
does (updates request) d = change_at request.id (apply_update request) d
does (unregisters id) d = set_at id none d
does (sets_players request) d =
    change_at request.id (apply_update (only_players request.id request.players)) d
does (puts_match request) d = change_at request.server_id (with_match request) d
does (removes_match request) d = change_at request.server_id (without_match request) d

unfoldable pub replay : List Call → Directory → Directory
unfolding does
replay [] d = d
replay (c ∷ cs) d = replay cs (does c d)

unfoldable pub read : Directory → String → Result ServiceError Server
read d id = elim (d id) [
  | none ↦ err (not_found "Server not found")
  | some server ↦ ok (clone_server server)
]

abbrev view : State → Directory
view s id = get s.servers id

-- A store under an ID that is there.
put_changes :
    (m : Map String Server) (id j : String) (change : Server → Server) (server : Server)
    → get m id ≡ some server
    → get (put m id (change server)) j ≡ change_at id change (λ k. get m k) j
put_changes m id j change server h = elim (Bool-cases (id == j)) [
  | inl same ↦
      let e : id ≡ j = (eq_iff id j).0 same in
      let there : get m j ≡ some server = subst (λ k. get m k ≡ some server) e h in
      get-put m id j (change server) ∙ rw (same, there) refl
  | inr other ↦ get-put m id j (change server) ∙ rw other refl
]

absent_unchanged :
    (m : Map String Server) (id j : String) (change : Server → Server)
    → get m id ≡ none
    → get m j ≡ change_at id change (λ k. get m k) j
absent_unchanged m id j change h = elim (Bool-cases (id == j)) [
  | inl same ↦
      let e : id ≡ j = (eq_iff id j).0 same in
      let there : get m j ≡ none = subst (λ k. get m k ≡ none) e h in rw (same, there) refl
  | inr other ↦ rw other refl
]

step-does : (s : State) (c : Call) (j : String) → view (step s c) j ≡ does c (view s) j
unfolding step does register update unregister set_players put_match remove_match clone_server
    with_matches
step-does s (registers server) j = elim (Bool-cases (server.id == "")) [
  | inl unnamed ↦ rw (unnamed, step, register) refl
  | inr named ↦
      rw (named, step, register)
        (get-put s.servers server.id j (clone_server (with_matches server)))
]
step-does s (unregisters id) j = get-delete s.servers id j
step-does s (updates request) j = elim (Option-cases (get s.servers request.id)) [
  | inl absent ↦
      rw (absent, step, update)
        (absent_unchanged s.servers request.id j (apply_update request) absent)
  | inr (server, there) ↦
      rw (there, step, update)
        (put_changes s.servers request.id j (apply_update request) server there)
]
step-does s (sets_players request) j =
    let change = apply_update (only_players request.id request.players) in
    elim (Option-cases (get s.servers request.id)) [
      | inl absent ↦
          rw (absent, step, set_players) (absent_unchanged s.servers request.id j change absent)
      | inr (server, there) ↦
          rw (there, step, set_players) (put_changes s.servers request.id j change server there)
    ]
step-does s (puts_match request) j = elim (Option-cases (get s.servers request.server_id)) [
  | inl absent ↦
      rw (absent, step, put_match)
        (absent_unchanged s.servers request.server_id j (with_match request) absent)
  | inr (server, there) ↦
      rw (there, step, put_match)
        (put_changes s.servers request.server_id j (with_match request) server there)
]
step-does s (removes_match request) j = elim (Option-cases (get s.servers request.server_id)) [
  | inl absent ↦
      rw (absent, step, remove_match)
        (absent_unchanged s.servers request.server_id j (without_match request) absent)
  | inr (server, there) ↦
      rw (there, step, remove_match)
        (put_changes s.servers request.server_id j (without_match request) server there)
]

run-replay : (s : State) (cs : List Call) → view (run s cs) ≡ replay cs (view s)
unfolding run replay
run-replay s [] = refl
run-replay s (c ∷ cs) =
    run-replay (step s c) cs ∙ ap (λ d. replay cs d) (fun_ext (λ j. step-does s c j))

-- After any sequence of calls on a new directory, failed ones included, a read of an ID answers what
-- the calls make of the function that has no server: a registration sets the entry of its ID, an
-- unregistration clears it, every other call changes the entry that is there and no other.
pub lookup-run :
    (calls : List Call) (id : String)
    → lookup (run new_state calls) id ≡ read (replay calls empty) id
unfolding lookup read get
lookup-run calls id = ap (λ d. read d id) (run-replay new_state calls)
