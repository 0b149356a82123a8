-- ===== src/Allocation/Ports/PoolAllocation.antt =====
-- pulp-cell/ports.go, `portPoolSet`: allocation from a set of pools.
use mathlib.Core.Option
use bananagine.Prelude.{
  String, ℤ, true, false, ◌&&◌, int_eq, string_eq, ◌==◌, eq_iff, none, some, ◌≡◌, refl, arith,
  if◌then◌else◌, inl, inr, ◌≤ℤ◌, Option-cases, Bool-cases, subst, ap, sym, ◌∙◌, sym, ap, ◌∙◌,
}
use bananagine.Map.{get, Unique}
use bananagine.Service.{Result, ok, err, Result-cases}
use bananagine.Allocation.Ports
use bananagine.Allocation.Ports.{PortPool, PortError, new_port_pool}
use bananagine.Allocation.Ports.Search
use bananagine.Allocation.Ports.Owners.{holder, allocate-Unique}
use bananagine.Allocation.Ports.Pools.{PortPoolSet, parse_range, pool_for, allocate}
use bananagine.Allocation.Ports.PoolOwners.{
  Place, fallback, ranged, held, IsKeyed, with_pool, same, pool_at-with_pool, with_pool-IsKeyed,
}

-- The place that a range text names.
abbrev pub place_of : String → Place
place_of range = if range == "" then fallback else ranged range

-- What `allocate` reports and does: a port that nobody held in that place is now held by the server,
-- and no other holding of any place changes; an error changes no holding.
abbrev pub Allocates : PortPoolSet → Place → String → PortPoolSet × Result PortError ℤ → Type 0
Allocates ps at server_id (ps', ok port) =
    (held ps at port ≡ none)
    × ((place : Place) (q : ℤ)
        → held ps' place q
          ≡ (if same at place && port == q then some server_id else held ps place q))
Allocates ps at server_id (ps', err e) =
    (place : Place) (q : ℤ) → held ps' place q ≡ held ps place q

held-with_pool :
    (ps : PortPoolSet) (at place : Place) (p : PortPool) (q : ℤ)
    → held (with_pool ps at p) place q ≡ (if same at place then holder p q else held ps place q)
unfolding Option.bind
held-with_pool ps at place p q = elim (Bool-cases (same at place)) [
  | inl hit ↦ rw (pool_at-with_pool ps at place p, hit)
  | inr miss ↦ rw (pool_at-with_pool ps at place p, miss)
]

pub same-eq : (at place : Place) → same at place ≡ true → at ≡ place
same-eq fallback fallback h = refl
same-eq (ranged r) (ranged t) h = ap ranged ((eq_iff r t).0 h)
same-eq fallback (ranged t) h = absurd (ground arith)
same-eq (ranged r) fallback h = absurd (ground arith)

allocate_at :
    (ps : PortPoolSet) (at : Place) (p : PortPool) (server_id : String)
    → ((q : ℤ) → held ps at q ≡ holder p q)
    → (r : PortPool × Result PortError ℤ) → Search.TakesFirst p server_id r
    → Allocates ps at server_id (with_pool ps at r.0, r.1)
allocate_at ps at p server_id base (p', ok port) a = (
  base port ∙ a.2,
  λ place q. elim (Bool-cases (same at place)) [
    | inl hit ↦
        let moved : held ps at q ≡ held ps place q = ap (λ w. held ps w q) (same-eq at place hit) in
        rw (held-with_pool ps at place p' q, hit) (ground (arith, a.6 q, base q, moved))
    | inr miss ↦ rw (held-with_pool ps at place p' q, miss)
  ],
)
allocate_at ps at p server_id base (p', err e) a = λ place q. elim (Bool-cases (same at place)) [
  | inl hit ↦
      let moved : held ps at q ≡ held ps place q = ap (λ w. held ps w q) (same-eq at place hit) in
      rw (held-with_pool ps at place p' q, hit, a.0) (sym (base q) ∙ moved)
  | inr miss ↦ rw (held-with_pool ps at place p' q, miss)
]

-- A pool that `getOrCreate` makes holds nothing, as nothing was held in its place.
held-pool_for :
    (ps : PortPoolSet) (range : String) (p : PortPool) (q : ℤ)
    → pool_for ps range ≡ ok p
    → held ps (ranged range) q ≡ holder p q
unfolding pool_for get Option.bind
held-pool_for ps range p q h = elim (Option-cases (get ps.pools range)) [
  | inl e ↦ ground arith
  | inr (p', e) ↦ ground arith
]

-- An allocation from a set of pools gives the server a port that nobody held in the place that the
-- range names, and changes no other holding of any place; an error changes no holding.
pub allocate-Allocates :
    (ps : PortPoolSet) (range server_id : String)
    → Allocates ps (place_of range) server_id (allocate ps range server_id)
unfolding allocate get Option.bind
allocate-Allocates ps range server_id = elim (Bool-cases (range == "")) [
  | inl e ↦ rw e (
      allocate_at ps fallback ps.fallback server_id (λ q. refl)
        (Ports.allocate ps.fallback server_id) (Search.allocate-TakesFirst ps.fallback server_id))
  | inr e ↦ elim (Result-cases (pool_for ps range)) [
    | inl (p, f) ↦
        rw (e, f)
          (allocate_at ps (ranged range) p server_id (λ q. held-pool_for ps range p q f)
            (Ports.allocate p server_id) (Search.allocate-TakesFirst p server_id))
    | inr (er, f) ↦ rw (e, f) (λ place q. refl)
  ]
]

pool_for-Unique :
    (ps : PortPoolSet) (range : String) (p : PortPool)
    → IsKeyed ps
    → pool_for ps range ≡ ok p
    → Unique p.allocated
unfolding pool_for
pool_for-Unique ps range p k h = elim (Option-cases (get ps.pools range)) [
  | inl e ↦ elim (Result-cases (parse_range range)) [
    | inl (b, f) ↦
        let new : new_port_pool b.0 b.1 ≡ p = ground arith in
        subst (λ (x : PortPool). Unique x.allocated) new tt
    | inr (er, f) ↦ absurd (ground arith)
  ]
  | inr (p', e) ↦ k.ports (ranged range) p (ground arith)
]

pub allocate-IsKeyed :
    (ps : PortPoolSet) (range server_id : String)
    → IsKeyed ps
    → IsKeyed (allocate ps range server_id).0
unfolding allocate
allocate-IsKeyed ps range server_id k = elim (Bool-cases (range == "")) [
  | inl e ↦
      rw (e, allocate)
        (with_pool-IsKeyed ps fallback (Ports.allocate ps.fallback server_id).0
          (allocate-Unique ps.fallback server_id (k.ports fallback ps.fallback refl)) k)
  | inr e ↦ elim (Result-cases (pool_for ps range)) [
    | inl (p, f) ↦
        rw (e, f, allocate)
          (with_pool-IsKeyed ps (ranged range) (Ports.allocate p server_id).0
            (allocate-Unique p server_id (pool_for-Unique ps range p k f)) k)
    | inr (er, f) ↦ rw (e, f, allocate) k
  ]
]

-- Two pools that cover one port do not see each other's holdings: where a range's pool and the
-- fallback pool begin at the same port, which nobody holds in either, two servers that allocate one
-- after the other, the first without a range, both get that port.
pub overlap_hands_out_twice :
    (ps : PortPoolSet) (range a b : String) (p : PortPool)
    → (range == "") ≡ false
    → get ps.pools range ≡ some p
    → p.start ≡ ps.fallback.start
    → p.start ≤ℤ p.end
    → ps.fallback.start ≤ℤ ps.fallback.end
    → holder p p.start ≡ none
    → holder ps.fallback ps.fallback.start ≡ none
    → ((allocate ps "" a).1 ≡ ok p.start) × ((allocate (allocate ps "" a).0 range b).1 ≡ ok p.start)
unfolding allocate pool_for
overlap_hands_out_twice ps range a b p named there e within within' free free' = (
  Search.allocate-start ps.fallback a within' free' ∙ ap ok (sym e),
  rw (named, there) (Search.allocate-start p b within free),
)
