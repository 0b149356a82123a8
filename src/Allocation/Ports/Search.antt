-- ===== src/Allocation/Ports/Search.antt =====
-- pulp-cell/ports.go: the search of `allocate` takes the least free port of the range.
use bananagine.Prelude.{
  ℕ, zero, suc, ◌+◌, ◌≤◌, ◌<◌, String, ℤ, pos_part, neg_part, leb_ℤ, suc_ℤ, suc_ℤ_parts, ◌≤ℤ◌,
  int_eq, Option, none, some, ◌≡◌, ◌≢◌, refl, arith, inl, inr, Option-cases, Bool-cases, ◌==◌,
  le_cases, subst, if◌then◌else◌,
}
use bananagine.Map.{Map, get, get-put}
use bananagine.Service.{Result, ok, err}
use bananagine.Allocation.Ports.{PortPool, PortError, rounds, first_free, allocate}

infix 50 ◌<ℤ◌
abbrev pub ◌<ℤ◌ : ℤ → ℤ → Type 0
a <ℤ b = pos_part a + neg_part b < pos_part b + neg_part a

-- What the search returns: the least free port, or none where all are taken.
abbrev pub Searched : Map ℤ String → ℤ → ℤ → Option ℤ → Type 0
Searched allocated start end none = (q : ℤ) → start ≤ℤ q → q ≤ℤ end → get allocated q ≢ none
Searched allocated start end (some port) =
    (start ≤ℤ port)
    × (port ≤ℤ end)
    × (get allocated port ≡ none)
    × ((q : ℤ) → start ≤ℤ q → q <ℤ port → get allocated q ≢ none)

Searched-step :
    (allocated : Map ℤ String) (start end : ℤ) (r : Option ℤ)
    → get allocated start ≢ none
    → Searched allocated (suc_ℤ start) end r
    → Searched allocated start end r
Searched-step allocated start end none taken s = λ q a b. elim (le_cases start q a) [
  | inl e ↦ subst (λ x. get allocated x ≢ none) e taken
  | inr above ↦ s q above b
]
Searched-step allocated start end (some port) taken s = (
  omega (arith, suc_ℤ_parts start, s.0),
  s.1,
  s.2,
  λ q a b. elim (le_cases start q a) [
    | inl e ↦ subst (λ x. get allocated x ≢ none) e taken
    | inr above ↦ s.3 q above b
  ],
)

first_free-Searched :
    (fuel : ℕ) (allocated : Map ℤ String) (port end : ℤ)
    → rounds port end ≤ fuel
    → Searched allocated port end (first_free fuel allocated port end)
unfolding first_free
first_free-Searched zero allocated port end h = λ q a b. absurd (omega arith)
first_free-Searched (suc fuel) allocated port end h = elim (Bool-cases (leb_ℤ port end)) [
  | inr above ↦ rw above (λ q a b. absurd (ground arith))
  | inl within ↦ elim (Option-cases (get allocated port)) [
    | inl free ↦ rw (within, free) (omega arith, ground arith, free, λ q a b. absurd (omega arith))
    | inr (id, taken) ↦
        let rest =
          first_free-Searched fuel allocated (suc_ℤ port) end (omega (arith, suc_ℤ_parts port)) in
        rw (within, taken)
          (Searched-step allocated port end (first_free fuel allocated (suc_ℤ port) end) (λ n. cc)
            rest)
  ]
]

-- `allocate` takes the least free port of the pool's range, records the server for it and changes no
-- other entry; it fails exactly if no port of the range is free, and then changes nothing.
abbrev pub TakesFirst : PortPool → String → PortPool × Result PortError ℤ → Type 0
TakesFirst p server_id (p', ok port) =
    (p.start ≤ℤ port)
    × (port ≤ℤ p.end)
    × (get p.allocated port ≡ none)
    × ((q : ℤ) → p.start ≤ℤ q → q <ℤ port → get p.allocated q ≢ none)
    × (p'.start ≡ p.start)
    × (p'.end ≡ p.end)
    × ((q : ℤ) → get p'.allocated q ≡ (if port == q then some server_id else get p.allocated q))
TakesFirst p server_id (p', err e) =
    (p' ≡ p) × ((q : ℤ) → p.start ≤ℤ q → q ≤ℤ p.end → get p.allocated q ≢ none)

-- An allocation takes the least free port of the range, records the server for it and changes no other
-- entry; where it fails no port of the range is free, and the pool stays as it was.
pub allocate-TakesFirst :
    (p : PortPool) (server_id : String) → TakesFirst p server_id (allocate p server_id)
unfolding allocate
allocate-TakesFirst p server_id =
    let found = first_free (rounds p.start p.end) p.allocated p.start p.end in
    let s = first_free-Searched (rounds p.start p.end) p.allocated p.start p.end (omega arith) in
    elim (Option-cases found) [
      | inl e ↦ rw (e, allocate) (refl, subst (λ r. Searched p.allocated p.start p.end r) e s)
      | inr (port, e) ↦
          let t : Searched p.allocated p.start p.end (some port) =
            subst (λ r. Searched p.allocated p.start p.end r) e s in
          rw (e, allocate)
            (t.0, t.1, t.2, t.3, refl, refl, λ q. get-put p.allocated port q server_id)
    ]

first_free-start :
    (fuel : ℕ) (allocated : Map ℤ String) (port end : ℤ)
    → 0 < fuel
    → port ≤ℤ end
    → get allocated port ≡ none
    → first_free fuel allocated port end ≡ some port
unfolding first_free
first_free-start zero allocated port end h within free = absurd (omega arith)
first_free-start (suc fuel) allocated port end h within free = ground arith

-- A free first port is the one that is taken.
pub allocate-start :
    (p : PortPool) (server_id : String)
    → p.start ≤ℤ p.end
    → get p.allocated p.start ≡ none
    → (allocate p server_id).1 ≡ ok p.start
unfolding allocate
allocate-start p server_id within free = rw (
  first_free-start (rounds p.start p.end) p.allocated p.start p.end (omega arith) within free,
  allocate,
)
