-- ===== src/Allocation/Ips/Owners.antt =====
-- pulp-cell/ips.go: release, re-keying and reservation by owner.
use mathlib.Core.Option
use bananagine.Prelude.{
  String, string_eq, ◌==◌, eq_iff, Option, none, some, [], ◌∷◌, ◌≡◌, refl, arith, if◌then◌else◌,
  inl, inr, ◌⊎◌, Option-cases, Bool-cases,
}
use bananagine.Map.{Map, get, get-delete, Unique, put-Unique, delete-Unique}
use bananagine.Map.Values.{unless, get-map_values, map_values-Unique}
use bananagine.Allocation.Ips.{
  IpPool, rounds, first_free, allocate, release, delete_first, release_by_server, re_key,
}

-- The server that holds an address.
abbrev pub holder : IpPool → String → Option String
holder p ip = get p.allocated ip

-- No server holds two addresses.
abbrev pub OneEach : IpPool → Type 0
OneEach p = (i j id : String) → holder p i ≡ some id → holder p j ≡ some id → i ≡ j

abbrev AtMostOne : String → Map String String → Type 0
AtMostOne id m = (i j : String) → get m i ≡ some id → get m j ≡ some id → i ≡ j

AtMostOne-tail :
    (server_id j id : String) (m : Map String String)
    → get m j ≡ none
    → AtMostOne server_id ((j, id) ∷ m)
    → AtMostOne server_id m
unfolding get
AtMostOne-tail server_id j id m fresh one i k p q =
    one i k (ground (arith, eq_iff j i)) (ground (arith, eq_iff j k))

unless_server :
    (server_id : String) (o : Option String)
    → (o ≡ some server_id) ⊎ (unless (λ id. id == server_id) o ≡ o)
unless_server server_id none = inr refl
unless_server server_id (some id) = ground (arith, eq_iff id server_id)

get-delete_first-none :
    (server_id : String) (m : Map String String) (ip : String)
    → get m ip ≡ none
    → get (delete_first server_id m) ip ≡ none
unfolding get delete_first
get-delete_first-none server_id [] ip h = refl
get-delete_first-none server_id ((j, id) ∷ m) ip h =
    ground (arith, eq_iff j ip, get-delete_first-none server_id m ip)

-- One address of the server is free afterwards, all others are as before.
abbrev FreesOne : String → Map String String → Map String String → Type 0
FreesOne server_id m n =
    (k : String) × (get m k ≡ some server_id)
    × ((ip : String) → get n ip ≡ (if k == ip then none else get m ip))

delete_first-FreesOne :
    (server_id : String) (m : Map String String) (i : String)
    → Unique m
    → get m i ≡ some server_id
    → FreesOne server_id m (delete_first server_id m)
unfolding get delete_first
delete_first-FreesOne server_id [] i u h = absurd (ground arith)
delete_first-FreesOne server_id ((x, id) ∷ m) i u h = elim (Bool-cases (id == server_id)) [
  | inl same ↦ (
    x,
    ground (arith, eq_iff x x, eq_iff id server_id),
    λ ip. rw same (ground (arith, u.0, eq_iff x ip)),
  )
  | inr other ↦
      let (k, held, freed) =
        delete_first-FreesOne server_id m i u.1 (ground (arith, eq_iff x i, eq_iff id server_id)) in
      (
        k,
        ground (arith, u.0, eq_iff x k),
        λ ip. rw other (ground (arith, freed ip, u.0, held, eq_iff x ip, eq_iff x k, eq_iff k ip)),
      )
]

get-delete_first :
    (server_id : String) (m : Map String String) (ip : String)
    → Unique m
    → AtMostOne server_id m
    → get (delete_first server_id m) ip ≡ unless (λ id. id == server_id) (get m ip)
unfolding get delete_first
get-delete_first server_id [] ip u one = refl
get-delete_first server_id ((j, id) ∷ m) ip u one = ground (
  arith,
  eq_iff j ip,
  eq_iff id server_id,
  unless_server server_id (get m ip),
  one j ip,
  eq_iff j j,
  get-delete_first server_id m ip u.1 (AtMostOne-tail server_id j id m u.0 one),
)

delete_first-Unique :
    (server_id : String) (m : Map String String) → Unique m → Unique (delete_first server_id m)
unfolding delete_first
delete_first-Unique server_id [] u = tt
delete_first-Unique server_id ((j, id) ∷ m) u =
    ground (arith, delete_first-Unique server_id m u.1, get-delete_first-none server_id m j)

-- Where no server holds two addresses, a release by server frees the address of that server, if it
-- holds one, and no other.
pub holder-release_by_server :
    (p : IpPool) (server_id ip : String)
    → Unique p.allocated
    → OneEach p
    → holder (release_by_server p server_id) ip ≡ unless (λ id. id == server_id) (holder p ip)
unfolding release_by_server
holder-release_by_server p server_id ip u one =
    get-delete_first server_id p.allocated ip u (λ i j. one i j server_id)

-- Where a server holds an address, a release by server frees one address of that server, and every
-- other address keeps its holder, also those that the same server holds.
pub release_by_server_frees_one :
    (p : IpPool) (server_id i : String)
    → Unique p.allocated
    → holder p i ≡ some server_id
    → (k : String) × (holder p k ≡ some server_id)
      × ((ip : String)
          → holder (release_by_server p server_id) ip ≡ (if k == ip then none else holder p ip))
unfolding release_by_server
release_by_server_frees_one p server_id i u h = delete_first-FreesOne server_id p.allocated i u h

-- Releasing an address frees it and no other.
pub holder-release :
    (p : IpPool) (ip j : String) → holder (release p ip) j ≡ (if ip == j then none else holder p j)
unfolding release
holder-release p ip j = get-delete p.allocated ip j

-- Re-keying hands every address of the old ID to the new one and leaves the rest.
pub holder-re_key :
    (p : IpPool) (old_id new_id ip : String)
    → holder (re_key p old_id new_id) ip
      ≡ Option.map (λ id. if id == old_id then new_id else id) (holder p ip)
unfolding re_key
holder-re_key p old_id new_id ip =
    get-map_values (λ id. if id == old_id then new_id else id) p.allocated ip

pub release-Unique :
    (p : IpPool) (ip : String) → Unique p.allocated → Unique (release p ip).allocated
unfolding release
release-Unique p ip u = delete-Unique p.allocated ip u

pub re_key-Unique :
    (p : IpPool) (old_id new_id : String)
    → Unique p.allocated
    → Unique (re_key p old_id new_id).allocated
unfolding re_key
re_key-Unique p old_id new_id u =
    map_values-Unique (λ id. if id == old_id then new_id else id) p.allocated u

pub release_by_server-Unique :
    (p : IpPool) (server_id : String)
    → Unique p.allocated
    → Unique (release_by_server p server_id).allocated
unfolding release_by_server
release_by_server-Unique p server_id u = delete_first-Unique server_id p.allocated u

pub allocate-Unique :
    (p : IpPool) (server_id : String)
    → Unique p.allocated
    → Unique (allocate p server_id).0.allocated
unfolding allocate
allocate-Unique p server_id u =
    elim (Option-cases (first_free (rounds p.start p.end) p.allocated p.start p.end)) [
      | inl e ↦ rw (e, allocate) u
      | inr (ip, e) ↦ rw (e, allocate) (put-Unique p.allocated ip server_id u)
    ]
