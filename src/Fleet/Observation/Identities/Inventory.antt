-- ===== src/Fleet/Observation/Identities/Inventory.antt =====
-- What an accepted file of identities yields.
use Prim.Native.String.{len}
use mathlib.Core.List.{Perm, append-nil, append_assoc}
use bananagine.Prelude.{
  ℕ, suc, ◌≤◌, ltb, String, string_eq, eq_iff, false, Option, none, some, List, [], ◌∷◌, ◌++◌, map,
  ◌≡◌, refl, sym, ap, ◌∙◌, arith, All, length, inl, inr, Bool-cases, Option-cases, if◌then◌else◌,
}
use bananagine.Map.{Map, get, put, get-put, Unique}
use bananagine.Map.Sorting.{sort_keys}
use bananagine.Map.Sorting.Kept.{length-sort_keys, sort_keys-perm, sort_keys-Unique}
use bananagine.Map.Sorting.Ordered.{Ordered, sort_keys-Ordered}
use bananagine.Service.{Result, ok, err, Result-cases, ok_injective, ◌>>=◌}
use bananagine.Fleet.Observation.{max_bytes, max_identities, within}
use bananagine.Fleet.Observation.Identities.{Messages, collect, entries_of, parse_identities}

module _ {S E : Type 0} (messages : Messages) (entry_of : S → Option (String × E)) where
  -- No UUID of the entries was seen before.
  abbrev AllFresh : Map String (Unit {0}) → List (String × E) → Type 0
  AllFresh seen = All (λ p. get seen p.0 ≡ none)

  AllFresh-put :
      (seen : Map String (Unit {0})) (uuid : String) (pairs : List (String × E))
      → AllFresh (put seen uuid tt) pairs
      → AllFresh seen pairs × (get pairs uuid ≡ none)
  unfolding get
  AllFresh-put seen uuid [] h = (tt, refl)
  AllFresh-put seen uuid ((j, entry) ∷ pairs) (h, hs) =
      let (rest, none_there) = AllFresh-put seen uuid pairs hs in
      (
        (ground (arith, get-put seen uuid j tt, eq_iff uuid j), rest),
        ground (arith, get-put seen uuid j tt, eq_iff uuid j, eq_iff j uuid),
      )

  -- The entries of the list are accepted, in its order, and no UUID is one that was seen or that
  -- stands twice; they come after those that the loop had.
  record Collected (source : List S) (seen : Map String (Unit {0}))
      (result collected : List (String × E)) : Type 0 where
    pairs : List (String × E)
    appended : collected ≡ result ++ pairs
    accepted : map entry_of source ≡ map some pairs
    fresh : AllFresh seen pairs
    unique : Unique pairs

  collect-Collected :
      (source : List S) (seen : Map String (Unit {0})) (result collected : List (String × E))
      → collect messages entry_of source seen result ≡ ok collected
      → Collected source seen result collected
  unfolding collect
  collect-Collected [] seen result collected = λ q. record {
    pairs = [];
    appended = sym (ok_injective q) ∙ sym (append-nil result);
    accepted = refl;
    fresh = tt;
    unique = tt;
  }
  collect-Collected (s ∷ rest) seen result collected = elim (Option-cases (entry_of s)) [
    | inl invalid ↦ rw (invalid, collect) (λ q. absurd cc)
    | inr ((uuid, entry), made) ↦ elim (Option-cases (get seen uuid)) [
      | inr (other, there) ↦ rw (made, there, collect) (λ q. absurd cc)
      | inl new ↦
          let next = result ++ (uuid, entry) ∷ [] in
          let again = collect-Collected rest (put seen uuid tt) next collected in
          rw (made, new, collect) (λ q. extended s uuid entry rest made new (again q))
    ]
  ]
    where
      extended :
          (s : S) (uuid : String) (entry : E) (rest : List S)
          → entry_of s ≡ some (uuid, entry)
          → get seen uuid ≡ none
          → Collected rest (put seen uuid tt) (result ++ (uuid, entry) ∷ []) collected
          → Collected (s ∷ rest) seen result collected
      extended s uuid entry rest made new c =
          let (fresh, absent) = AllFresh-put seen uuid c.pairs c.fresh in
          record {
            pairs = (uuid, entry) ∷ c.pairs;
            appended = c.appended ∙ append_assoc result ((uuid, entry) ∷ []) c.pairs;
            accepted = rw (made, c.accepted) refl;
            fresh = (new, fresh);
            unique = (absent, c.unique);
          }

  within_passes :
      (output message : String) (parsed : Result String (List E)) (entries : List E)
      → within output message parsed ≡ ok entries
      → parsed ≡ ok entries
  unfolding within
  within_passes output message parsed entries = elim (Bool-cases (ltb max_bytes (len output))) [
    | inl long ↦ rw (long, within) (λ q. absurd cc)
    | inr short ↦ rw (short, within) (λ q. q)
  ]

  few_entries : (n k : ℕ) → ltb max_identities n ≡ false → k ≡ n → k ≤ max_identities
  few_entries n k few same = ground arith

  length-map : {A B : Type 0} (g : A → B) (l : List A) → length (map g l) ≡ length l
  length-map g [] = refl
  length-map g (x ∷ l) = ap (λ n. suc n) (length-map g l)

  -- The inventory of a file: `sorted` has the accepted entries of the file, one of each, in the order of
  -- their UUIDs, of which none stands twice, and there are not too many.
  abbrev pub Inventory : List S → List E → Type 0
  Inventory source entries =
      (pairs : List (String × E)) × (sorted : List (String × E)) × (map entry_of source
        ≡ map some pairs)
      × Perm sorted pairs
      × Unique sorted
      × Ordered sorted
      × (entries ≡ entries_of sorted)
      × (length entries ≤ max_identities)

  -- What a parser accepts is the inventory of the decoded file: every entry of the file was accepted by
  -- the parser's `entry_of`, the result consists of what it made of each, ordered by UUID, no UUID
  -- stands twice, and there are at most 512 entries.
  pub parse_identities-Inventory :
      (decode : String → Option (List S)) (output : String) (entries : List E)
      → parse_identities messages entry_of decode output ≡ ok entries
      → (source : List S) × (decode output ≡ some source) × Inventory source entries
  unfolding parse_identities
  parse_identities-Inventory decode output entries q =
      listed (within_passes output messages.undecoded _ entries q)
    where
      inventory :
          (source : List S) (collected : List (String × E))
          → ltb max_identities (length source) ≡ false
          → Collected source [] [] collected
          → entries_of (sort_keys collected) ≡ entries
          → Inventory source entries
      inventory source collected few c made =
          let pairs = c.pairs in
          let sorted = sort_keys pairs in
          let same : entries ≡ entries_of sorted =
            sym made ∙ ap (λ l. entries_of (sort_keys l)) c.appended in
          let all : length pairs ≡ length source =
            sym (length-map some pairs)
            ∙ (sym (ap (λ l. length l) c.accepted) ∙ length-map entry_of source) in
          let counted : length entries ≡ length source =
            ap (λ l. length l) same
            ∙ (length-map (λ p. p.1) sorted ∙ (length-sort_keys pairs ∙ all)) in
          (
            pairs,
            sorted,
            c.accepted,
            sort_keys-perm pairs,
            sort_keys-Unique pairs c.unique,
            sort_keys-Ordered pairs,
            same,
            few_entries (length source) (length entries) few counted,
          )

      listed :
          (elim (decode output) [
            | none ↦ err messages.undecoded
            | some source ↦
                if ltb max_identities (length source)
                then err messages.too_many
                else (collect messages entry_of source [] [] >>= λ result.
                    ok (entries_of (sort_keys result)))
          ])
            ≡ ok entries
          → (source : List S) × (decode output ≡ some source) × Inventory source entries
      listed = elim (Option-cases (decode output)) [
        | inl undecoded ↦ rw undecoded (λ p. absurd cc)
        | inr (source, decoded) ↦ elim (Bool-cases (ltb max_identities (length source))) [
          | inl many ↦ rw (decoded, many) (λ p. absurd cc)
          | inr few ↦ elim (Result-cases (collect messages entry_of source [] [])) [
            | inr (e, bad) ↦ rw (decoded, few, bad) (λ p. absurd cc)
            | inl (collected, good) ↦
                let c = collect-Collected source [] [] collected good in
                rw (decoded, few, good)
                  (λ p. (source, refl, inventory source collected few c (ok_injective p)))
          ]
        ]
      ]
