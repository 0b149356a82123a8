-- ===== src/Registry/Listing.antt =====
-- registry/state.go: `List` against the wording of the API reference.
use mathlib.Core.List.{mem-cons}
use mathlib.Core.Logic.Or
use bananagine.Prelude.{
  String, ◌≡◌, ◌≢◌, refl, true, none, some, [], ◌∷◌, arith, string_eq, eq_iff, inl, inr, Bool-cases,
  ◌==◌, All, All-mono, Mem, ◌≤ℤ◌, ◌∙◌,
}
use bananagine.Map.{Map, get, Unique}
use bananagine.Registry.Contracts.{Match, Server, ListRequest, status_ready}
use bananagine.Registry.Clone.{Keyed}
use bananagine.Registry.Invariant.{IsStored, IsValid}
use bananagine.Registry.State.{
  State, clone_server, has_ready, has_ready_match, selected, collect, list, or_keep,
}

-- Some match of the server is ready.
abbrev pub HasReadyMatch : Server → Type 0
HasReadyMatch server =
    (id : String) × (match : Match) × (get (or_keep server.matches []) id ≡ some match)
    × (match.status ≡ status_ready)

-- The filters of `GET /registry/servers`: an empty filter field admits every server.
pub record Accepts (filter : ListRequest) (server : Server) : Type 0 where
  pub type : filter.type ≢ "" → server.type ≡ filter.type
  pub mode : filter.mode ≢ "" → server.mode ≡ filter.mode
  pub capacity : filter.has_capacity ≡ true → ¬ (server.max_players ≤ℤ server.players)
  pub ready : filter.has_ready_match ≡ true → HasReadyMatch server

has_ready_sound :
    (m : Map String Match)
    → Unique m
    → has_ready m ≡ true
    → (id : String) × (match : Match) × (get m id ≡ some match) × (match.status ≡ status_ready)
unfolding has_ready get
has_ready_sound [] u h = absurd (ground arith)
has_ready_sound ((k, match) ∷ m) u h = elim (Bool-cases (match.status == status_ready)) [
  | inl e ↦ (k, match, ground (arith, eq_iff k k), (eq_iff match.status status_ready).0 e)
  | inr e ↦
      let (id, found, p, q) = has_ready_sound m u.1 (ground arith) in
      (id, found, ground (arith, eq_iff k id, u.0), q)
]

has_ready_complete :
    (m : Map String Match) (id : String) (match : Match)
    → get m id ≡ some match
    → match.status ≡ status_ready
    → has_ready m ≡ true
unfolding has_ready get
has_ready_complete [] id match p q = absurd (ground arith)
has_ready_complete ((k, first) ∷ m) id match p q =
    ground (arith, eq_iff k id, eq_iff first.status status_ready, has_ready_complete m id match)

has_ready_match-eq :
    (server : Server) → has_ready_match server ≡ has_ready (or_keep server.matches [])
unfolding has_ready_match has_ready
has_ready_match-eq server = ground arith

or_keep-Unique : (server : Server) → Keyed server.matches → Unique (or_keep server.matches [])
or_keep-Unique server u = ground arith

selected-Accepts :
    (filter : ListRequest) (server : Server)
    → Keyed server.matches
    → selected filter server ≡ true
    → Accepts filter server
unfolding selected
selected-Accepts filter server u h = record {
  type = λ n. ground (arith, eq_iff filter.type "", eq_iff server.type filter.type);
  mode = λ n. ground (arith, eq_iff filter.mode "", eq_iff server.mode filter.mode);
  capacity = λ c. ground arith;
  ready = λ r.
      has_ready_sound (or_keep server.matches []) (or_keep-Unique server u)
        (ground (arith, has_ready_match-eq server));
}

ready_of_Accepts :
    (filter : ListRequest) (server : Server)
    → Accepts filter server
    → filter.has_ready_match ≡ true
    → has_ready_match server ≡ true
ready_of_Accepts filter server a r =
    let (id, match, p, q) = a.ready r in
    has_ready_match-eq server ∙ has_ready_complete (or_keep server.matches []) id match p q

Accepts-selected :
    (filter : ListRequest) (server : Server) → Accepts filter server → selected filter server ≡ true
unfolding selected
Accepts-selected filter server a = ground (
  arith,
  eq_iff filter.type "",
  eq_iff server.type filter.type,
  eq_iff filter.mode "",
  eq_iff server.mode filter.mode,
  a.type,
  a.mode,
  a.capacity,
  ready_of_Accepts filter server a,
)

-- A result of `List`: a copy of a record that is stored under its own ID and that the filter admits.
abbrev pub IsListed : Map String Server → ListRequest → Server → Type 0
IsListed m filter result =
    (server : Server) × (get m server.id ≡ some server)
    × Accepts filter server
    × (result ≡ clone_server server)

abbrev AllStored : Map String Server → Type 0
AllStored [] = Unit
AllStored ((k, server) ∷ m) = (server.id ≡ k) × Keyed server.matches × AllStored m

AllStored-of_IsValid :
    (m : Map String Server)
    → Unique m
    → ((key : String) (server : Server) → get m key ≡ some server → IsStored key server)
    → AllStored m
unfolding get
AllStored-of_IsValid [] u h = tt
AllStored-of_IsValid ((k, server) ∷ m) u h =
    let i : IsStored k server = h k server (ground (arith, eq_iff k k)) in
    (
      i.named,
      i.keyed,
      AllStored-of_IsValid m u.1 (λ key x p. h key x (ground (arith, eq_iff k key, u.0))),
    )

IsListed-cons :
    (k : String) (server : Server) (m : Map String Server) (filter : ListRequest)
    → get m k ≡ none
    → (result : Server) → IsListed m filter result
    → IsListed ((k, server) ∷ m) filter result
unfolding get
IsListed-cons k server m filter fresh result (x, p, a, e) = (x, ground (arith, eq_iff k x.id), a, e)

collect_sound :
    (filter : ListRequest) (m : Map String Server)
    → Unique m
    → AllStored m
    → All (IsListed m filter) (collect filter m)
unfolding collect get
collect_sound filter [] u st = tt
collect_sound filter ((k, server) ∷ m) u st =
    let rest : All (IsListed ((k, server) ∷ m) filter) (collect filter m) =
      All-mono (IsListed m filter) (IsListed ((k, server) ∷ m) filter) (collect filter m)
        (IsListed-cons k server m filter u.0) (collect_sound filter m u.1 st.2) in
    elim (Bool-cases (selected filter server)) [
      | inl e ↦ rw e (
        (
          server,
          ground (arith, eq_iff k server.id, st.0),
          selected-Accepts filter server st.1 e,
          refl,
        ),
        rest,
      )
      | inr e ↦ rw e rest
    ]

collect_complete :
    (filter : ListRequest) (m : Map String Server) (id : String) (server : Server)
    → get m id ≡ some server
    → selected filter server ≡ true
    → Mem (clone_server server) (collect filter m)
unfolding collect get
collect_complete filter [] id server p q = absurd (ground arith)
collect_complete filter ((k, first) ∷ m) id server p q =
    let rest = collect_complete filter m id server in
    elim (Bool-cases (selected filter first)) [
      | inl e ↦ rw e (
          mem-cons.1 (elim (Bool-cases (k == id)) [
            | inl hit ↦ Or.inl (ground arith)
            | inr miss ↦ Or.inr (rest (ground arith) q)
          ]))
      | inr e ↦ rw e (rest (ground arith) q)
    ]

-- `List` returns only copies of stored records that the filter admits.
pub list-IsListed :
    (s : State) (filter : ListRequest) → IsValid s → All (IsListed s.servers filter) (list s filter)
unfolding list
list-IsListed s filter v =
    collect_sound filter s.servers v.unique (AllStored-of_IsValid s.servers v.unique v.stored)

-- `List` leaves out no stored record that the filter admits.
pub Mem-list :
    (s : State) (filter : ListRequest) (server : Server)
    → get s.servers server.id ≡ some server
    → Accepts filter server
    → Mem (clone_server server) (list s filter)
unfolding list
Mem-list s filter server p a =
    collect_complete filter s.servers server.id server p (Accepts-selected filter server a)
