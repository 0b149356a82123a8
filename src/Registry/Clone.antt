-- ===== src/Registry/Clone.antt =====
-- registry/state.go: what `cloneMatch`, `cloneStrings` and `cloneServer` keep.
use mathlib.Core.Option
use bananagine.Prelude.{String, ◌≡◌, refl, Option, none, some, [], ◌∷◌, arith, ap, string_eq}
use bananagine.Map.{Map, Unique}
use bananagine.Map.Values.{map_values, map_values-Unique}
use bananagine.Registry.Contracts.{Match, Server}
use bananagine.Registry.State.{clone_players, clone_match, clone_strings, clone_server}

pub clone_match_idem : (match : Match) → clone_match (clone_match match) ≡ clone_match match
unfolding clone_match clone_players
clone_match_idem match = ground arith

map_values_idem {ℓ κ} :
    {K : Type ℓ} {V : Type κ} (f : V → V) (idem : (v : V) → f (f v) ≡ f v) (m : Map K V)
    → map_values f (map_values f m) ≡ map_values f m
unfolding map_values
map_values_idem f idem [] = refl
map_values_idem f idem ((k, v) ∷ m) = cc (idem v, map_values_idem f idem m)

clone_matches_idem :
    (o : Option (Map String Match))
    → Option.map (map_values clone_match) (Option.map (map_values clone_match) o)
      ≡ Option.map (map_values clone_match) o
clone_matches_idem none = refl
clone_matches_idem (some m) = ap some (map_values_idem clone_match clone_match_idem m)

clone_strings_idem :
    (o : Option (Map String String)) → clone_strings (clone_strings o) ≡ clone_strings o
clone_strings_idem none = refl
clone_strings_idem (some m) = ap some (map_values_idem (λ v. v) (λ v. refl) m)

-- A copy of a copy is the copy.
pub clone_server_idem : (server : Server) → clone_server (clone_server server) ≡ clone_server server
unfolding clone_server
clone_server_idem server =
    cc (clone_matches_idem server.matches, clone_strings_idem server.metadata)

-- The keys of a map that may be nil stand once each, as they do in every Go map.
abbrev pub Keyed {ℓ} : {V : Type ℓ} → Option (Map String V) → Type ℓ
Keyed none = Unit
Keyed (some m) = Unique m

pub clone_matches-Keyed :
    (o : Option (Map String Match)) → Keyed o → Keyed (Option.map (map_values clone_match) o)
clone_matches-Keyed none u = tt
clone_matches-Keyed (some m) u = map_values-Unique clone_match m u
