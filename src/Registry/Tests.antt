-- ===== src/Registry/Tests.antt =====
-- Runs of registry/state.go at concrete inputs.
use bananagine.Prelude.{
  string_eq, pos, true, false, ◌≡◌, refl, arith, none, some, List, [], ◌∷◌, All,
}
use mathlib.Core.List.{Mem}
use bananagine.Map.{get}
use bananagine.Service.{not_found}
use bananagine.Registry.Contracts.{
  Match, Server, ListRequest, UpdateRequest, PutMatchRequest, RemoveMatchRequest,
}
use bananagine.Registry.State.{State, new_state, update, lookup, list, clone_server}
use bananagine.Registry.Invariant.{
  Call, registers, puts_match, removes_match, updates, step, run, IsValid, AllWire, run_new-IsValid,
}
use bananagine.Registry.Refinement.{lookup-run, read, replay, empty}
use bananagine.Registry.Reads.{step-eq_of_failure, failure}
use bananagine.Registry.Listing.{IsListed, Accepts, list-IsListed, Mem-list}

abbrev duel : Match
duel = record { status = "ready"; need = pos 2; players = some ("ada" ∷ []) }

abbrev game : Server
game = record {
  id = "mc-1";
  type = "game";
  mode = "duels";
  host = "10.99.0.10";
  port = pos 25565;
  webhook_port = pos 8080;
  players = pos 1;
  max_players = pos 8;
  matches = some (("m1", duel) ∷ []);
  metadata = none;
}

abbrev directory : State
directory = record { servers = ("mc-1", game) ∷ [] }

abbrev puts : PutMatchRequest
puts = record { server_id = "mc-1"; match_id = "m2"; match = duel }

abbrev removes : RemoveMatchRequest
removes = record { server_id = "mc-1"; match_id = "m1" }

abbrev fills : UpdateRequest
fills = record { id = "mc-1"; players = some (pos 8); max_players = none; metadata = none }

abbrev misses : UpdateRequest
misses = record fills { id = "mc-9" }

abbrev calls : List Call
calls = registers game ∷ puts_match puts ∷ removes_match removes ∷ []

calls-AllWire : AllWire calls
unfolding get
calls-AllWire = ((refl, tt), (tt, (tt, tt)))

run_new-IsValid_example : IsValid (run new_state calls)
run_new-IsValid_example = run_new-IsValid calls calls-AllWire

abbrev any : ListRequest
any = record { type = "game"; mode = ""; has_capacity = true; has_ready_match = false }

directory-IsValid : IsValid (run new_state (registers game ∷ []))
unfolding get
directory-IsValid = run_new-IsValid (registers game ∷ []) ((refl, tt), tt)

list-IsListed_example :
    All
      (IsListed (run new_state (registers game ∷ [])).servers any)
      (list (run new_state (registers game ∷ [])) any)
list-IsListed_example = list-IsListed (run new_state (registers game ∷ [])) any directory-IsValid

game-Accepts : Accepts any game
game-Accepts = record {
  type = λ n. refl;
  mode = λ n. absurd (n refl);
  capacity = λ c. ground arith;
  ready = λ r. absurd (ground arith);
}

Mem-list_example : Mem (clone_server game) (list directory any)
unfolding get
Mem-list_example = Mem-list directory any game refl game-Accepts

step-eq_of_failure_example : step directory (updates misses) ≡ directory
unfolding failure update get
step-eq_of_failure_example =
    step-eq_of_failure directory (updates misses) (not_found "Server not found") refl

lookup-run_example : lookup (run new_state calls) "mc-1" ≡ read (replay calls empty) "mc-1"
lookup-run_example = lookup-run calls "mc-1"
