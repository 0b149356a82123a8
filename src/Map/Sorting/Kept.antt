-- ===== src/Map/Sorting/Kept.antt =====
-- What sorting a map by its keys keeps: its lookups and its entries.
use mathlib.Core.List.Perm
use mathlib.Core.List.{Perm}
use bananagine.Prelude.{
  suc, String, string_eq, eq_iff, false, ◌==◌, none, some, [], ◌∷◌, ◌≡◌, inl, inr, refl, ap, sym,
  subst, ◌∙◌, arith, length, if◌then◌else◌,
}
use bananagine.Map.Entries.{Map, get, Unique}
use bananagine.Map.Sorting.{insert_key, sort_keys}
use bananagine.Map.Sorting.Ordered.{insert_key-cases}

module _ {ℓ} {V : Type ℓ} where
  length-insert_key :
      (k : String) (v : V) (m : Map String V) → length (insert_key k v m) ≡ suc (length m)
  unfolding insert_key
  length-insert_key k v [] = refl
  length-insert_key k v ((j, w) ∷ m) = elim (insert_key-cases k j v w m) [
    | inl (first, _) ↦ rw first refl
    | inr (later, _) ↦ rw later (ap (λ n. suc n) (length-insert_key k v m))
  ]

  insert_key-perm : (k : String) (v : V) (m : Map String V) → Perm (insert_key k v m) ((k, v) ∷ m)
  unfolding insert_key
  insert_key-perm k v [] = Perm.refl _
  insert_key-perm k v ((j, w) ∷ m) = elim (insert_key-cases k j v w m) [
    | inl (first, _) ↦ rw first (Perm.refl _)
    | inr (later, _) ↦
        rw later (Perm.trans (Perm.cons (j, w) (insert_key-perm k v m)) (Perm.swap (k, v) (j, w) m))
  ]

  get-insert_key :
      (k j : String) (v : V) (m : Map String V)
      → get (insert_key k v m) j ≡ (if k == j then some v else get m j)
  unfolding insert_key get
  get-insert_key k j v [] = refl
  get-insert_key k j v ((i, w) ∷ m) = elim (insert_key-cases k i v w m) [
    | inl (first, _) ↦ rw first refl
    | inr (later, above) ↦
        let other : (k == i) ≡ false = rw above refl in
        let rest = get-insert_key k j v m in
        rw later (ground (arith, rest, eq_iff k j, eq_iff i j, eq_iff k i))
  ]

  insert_key-Unique :
      (k : String) (v : V) (m : Map String V)
      → get m k ≡ none
      → Unique m
      → Unique (insert_key k v m)
  unfolding insert_key get
  insert_key-Unique k v [] fresh u = (refl, tt)
  insert_key-Unique k v ((j, w) ∷ m) fresh u = elim (insert_key-cases k j v w m) [
    | inl (first, _) ↦ subst Unique (sym first) (fresh, u)
    | inr (later, above) ↦
        let other : (k == j) ≡ false = rw above refl in
        let rest = insert_key-Unique k v m (ground arith) u.1 in
        subst Unique (sym later) (get-insert_key k j v m ∙ rw other u.0, rest)
  ]

  pub length-sort_keys : (m : Map String V) → length (sort_keys m) ≡ length m
  unfolding sort_keys
  length-sort_keys [] = refl
  length-sort_keys ((k, v) ∷ m) =
      length-insert_key k v (sort_keys m) ∙ ap (λ n. suc n) (length-sort_keys m)

  -- A sort keeps the entries, with their number.
  pub sort_keys-perm : (m : Map String V) → Perm (sort_keys m) m
  unfolding sort_keys
  sort_keys-perm [] = Perm.refl _
  sort_keys-perm ((k, v) ∷ m) =
      Perm.trans (insert_key-perm k v (sort_keys m)) (Perm.cons (k, v) (sort_keys-perm m))

  get-sort_keys : (m : Map String V) (j : String) → get (sort_keys m) j ≡ get m j
  unfolding sort_keys get
  get-sort_keys [] j = refl
  get-sort_keys ((k, v) ∷ m) j =
      get-insert_key k j v (sort_keys m)
      ∙ ap (λ o. if k == j then some v else o) (get-sort_keys m j)

  pub sort_keys-Unique : (m : Map String V) → Unique m → Unique (sort_keys m)
  unfolding sort_keys
  sort_keys-Unique [] u = tt
  sort_keys-Unique ((k, v) ∷ m) u =
      insert_key-Unique k v (sort_keys m) (get-sort_keys m k ∙ u.0) (sort_keys-Unique m u.1)
