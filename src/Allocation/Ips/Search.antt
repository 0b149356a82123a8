-- ===== src/Allocation/Ips/Search.antt =====
-- pulp-cell/ips.go: the search of `allocate` tries every address from the start to the end, and
-- takes the first that nobody holds.
use bananagine.Prelude.{
  ℕ, zero, suc, ◌+◌, ◌-◌, ◌%◌, ◌^◌, ◌≤◌, ◌<◌, String, string_eq, nat_eq, ◌==◌, Option, none, some,
  ◌≡◌, ◌≢◌, refl, arith, inl, inr, Option-cases, Bool-cases, subst, true, if◌then◌else◌,
}
use bananagine.Map.{Map, get, get-put}
use bananagine.Service.{Result, ok, err}
use bananagine.Allocation.Ips.{IpPool, IpError, first_free, rounds, allocate}
use bananagine.Allocation.Ips.Address.{Ip, IsIp, inc_ip, inc_ip_lem, ip_equal, ip_string, value}

-- The address n steps on.
pub nth_ip : Ip → ℕ → Ip
nth_ip ip zero = ip
nth_ip ip (suc n) = nth_ip (inc_ip ip) n

-- How many steps lead from one address to another.
abbrev pub distance : Ip → Ip → ℕ
distance start end = (value end + 2 ^ 32 - value start) % 2 ^ 32

ip_equal_iff_value : (x y : Ip) → IsIp x → IsIp y → ip_equal x y ≡ true → value x ≡ value y
unfolding ip_equal
ip_equal_iff_value x y u v h = ground arith

ip_equal_of_value : (x y : Ip) → IsIp x → IsIp y → value x ≡ value y → ip_equal x y ≡ true
unfolding ip_equal
ip_equal_of_value x y u v h = ground arith

value-lt : (x : Ip) → IsIp x → value x < 2 ^ 32
value-lt x v = omega arith

-- One step nearer, unless there.
distance-inc_ip :
    (x y : Ip) → IsIp x → IsIp y → value x ≢ value y → distance x y ≡ distance (inc_ip x) y + 1
distance-inc_ip x y u v n = omega (arith, (inc_ip_lem x u).1, value-lt x u, value-lt y v)

-- Nobody holds the address n steps on.
abbrev FreeAt : Map String String → Ip → ℕ → Type 0
FreeAt allocated start n = get allocated (ip_string (nth_ip start n)) ≡ none

abbrev pub Searched : Map String String → Ip → Ip → Option String → Type 0
Searched allocated start end none = (n : ℕ) → n ≤ distance start end → ¬ (FreeAt allocated start n)
Searched allocated start end (some ip) =
    (n : ℕ) × (n ≤ distance start end)
    × (ip ≡ ip_string (nth_ip start n))
    × FreeAt allocated start n
    × ((m : ℕ) → m < n → ¬ (FreeAt allocated start m))

Searched-last :
    (allocated : Map String String) (start end : Ip) (id : String)
    → get allocated (ip_string start) ≡ some id
    → value start ≡ value end
    → Searched allocated start end none
unfolding nth_ip
Searched-last allocated start end id taken last zero h free = cc
Searched-last allocated start end id taken last (suc n) h free = absurd (omega arith)

Searched-step :
    (allocated : Map String String) (start end : Ip) (r : Option String)
    → ¬ (FreeAt allocated start 0)
    → distance start end ≡ distance (inc_ip start) end + 1
    → Searched allocated (inc_ip start) end r
    → Searched allocated start end r
unfolding nth_ip
Searched-step allocated start end none taken d s = λ n h. go n h
  where
    go : (n : ℕ) → n ≤ distance start end → ¬ (FreeAt allocated start n)
    go zero h = taken
    go (suc n) h = s n (omega arith)
Searched-step allocated start end (some ip) taken d (n, h, e, free, before) =
    (suc n, omega arith, e, free, go)
  where
    go : (m : ℕ) → m < suc n → ¬ (FreeAt allocated start m)
    go zero h = taken
    go (suc m) h = before m (omega arith)

first_free-Searched :
    (fuel : ℕ) (allocated : Map String String) (ip end : Ip)
    → IsIp ip
    → IsIp end
    → distance ip end < fuel
    → Searched allocated ip end (first_free fuel allocated ip end)
unfolding first_free nth_ip
first_free-Searched zero allocated ip end u v h = absurd (omega arith)
first_free-Searched (suc fuel) allocated ip end u v h =
    elim (Option-cases (get allocated (ip_string ip))) [
      | inl free ↦ rw (free, first_free) (0, omega arith, refl, free, λ m lt. absurd (omega arith))
      | inr (id, taken) ↦ elim (Bool-cases (ip_equal ip end)) [
        | inl last ↦
            rw (taken, last, first_free)
              (Searched-last allocated ip end id taken (ip_equal_iff_value ip end u v last))
        | inr more ↦
            let differ : value ip ≢ value end =
              λ e. ground (arith, ip_equal_of_value ip end u v e) in
            let d = distance-inc_ip ip end u v differ in
            rw (taken, more, first_free)
              (Searched-step allocated ip end (first_free fuel allocated (inc_ip ip) end)
                (λ free. cc) d
                (first_free-Searched fuel allocated (inc_ip ip) end (inc_ip_lem ip u).0 v
                  (omega arith)))
      ]
    ]

-- What `allocate` does: it takes the first address from the start to the end that nobody holds, for
-- the server, and changes no other entry; if all are held it fails and changes nothing.
abbrev pub TakesAddress : IpPool → String → IpPool × Result IpError String → Type 0
TakesAddress p server_id (p', ok ip) =
    Searched p.allocated p.start p.end (some ip)
    × (p'.start ≡ p.start)
    × (p'.end ≡ p.end)
    × ((j : String) → get p'.allocated j ≡ (if ip == j then some server_id else get p.allocated j))
TakesAddress p server_id (p', err e) = Searched p.allocated p.start p.end none × (p' ≡ p)

-- In a pool between two IPv4 addresses, an allocation takes the first free address in the order of
-- `incIP` from the start, going round after 255.255.255.255, up to the end, records the server for it
-- and changes no other entry; where it fails each of these addresses is taken, and the pool stays as
-- it was.
pub allocate-TakesAddress :
    (p : IpPool) (server_id : String)
    → IsIp p.start
    → IsIp p.end
    → TakesAddress p server_id (allocate p server_id)
unfolding allocate
allocate-TakesAddress p server_id u v =
    let found = first_free (rounds p.start p.end) p.allocated p.start p.end in
    let s =
      first_free-Searched (rounds p.start p.end) p.allocated p.start p.end u v (omega arith) in
    elim (Option-cases found) [
      | inl e ↦ rw (e, allocate) (subst (λ r. Searched p.allocated p.start p.end r) e s, refl)
      | inr (ip, e) ↦
          rw (e, allocate)
            (
              subst (λ r. Searched p.allocated p.start p.end r) e s,
              refl,
              refl,
              λ j. get-put p.allocated ip j server_id,
            )
    ]
