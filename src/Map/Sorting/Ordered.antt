-- ===== src/Map/Sorting/Ordered.antt =====
-- What sorting a map by its keys achieves: no key stands before a smaller one.
use Prim.Native.Nat.{Ordering, compare as compare_ℕ}
use Prim.Native.Char.{code}
use Prim.Native.String.{compare, then}
use Prim.Native.String.compare.{cons-cons, nil-cons, nil-nil}
use bananagine.Prelude.{ℕ, String, [], ◌∷◌, ◌≡◌, ◌≢◌, ◌⊎◌, inl, inr, refl, sym, subst, ◌∙◌, arith}
use bananagine.Map.Entries.{Map}
use bananagine.Map.Sorting.{insert_key, sort_keys}

then_gt :
    (o p : Ordering)
    → then o p ≡ Ordering.gt
    → (o ≡ Ordering.gt) ⊎ ((o ≡ Ordering.eq) × (p ≡ Ordering.gt))
then_gt Ordering.lt p h = absurd cc
then_gt Ordering.eq p h = inr (refl, h)
then_gt Ordering.gt p h = inl refl

-- A greater text is greater one way only.
compare-flip : (s t : String) → compare s t ≡ Ordering.gt → compare t s ≢ Ordering.gt
compare-flip String.[] String.[] h k =
    let clash : Ordering.eq ≡ Ordering.gt = sym nil-nil ∙ h in absurd cc
compare-flip String.[] (String.◌∷◌ d t) h k =
    let clash : Ordering.lt ≡ Ordering.gt = sym (nil-cons d t) ∙ h in absurd cc
compare-flip (String.◌∷◌ c s) String.[] h k =
    let clash : Ordering.lt ≡ Ordering.gt = sym (nil-cons c s) ∙ k in absurd cc
compare-flip (String.◌∷◌ c s) (String.◌∷◌ d t) h k =
    elim (then_gt (compare_ℕ (code c) (code d)) (compare s t) (sym (cons-cons c d s t) ∙ h)) [
      | inl first ↦
          elim (then_gt (compare_ℕ (code d) (code c)) (compare t s) (sym (cons-cons d c t s) ∙ k)) [
            | inl back ↦ first_only (code c) (code d) first back
            | inr (same, _) ↦ first_differs (code c) (code d) first same
          ]
      | inr (same, later) ↦
          elim (then_gt (compare_ℕ (code d) (code c)) (compare t s) (sym (cons-cons d c t s) ∙ k)) [
            | inl back ↦ first_differs (code d) (code c) back same
            | inr (_, back) ↦ compare-flip s t later back
          ]
    ]
  where
    first_only : (m n : ℕ) → compare_ℕ m n ≡ Ordering.gt → compare_ℕ n m ≢ Ordering.gt
    first_only m n p q = ground arith

    first_differs : (m n : ℕ) → compare_ℕ m n ≡ Ordering.gt → compare_ℕ n m ≢ Ordering.eq
    first_differs m n p q = ground arith

Ordering-cases : (o : Ordering) → (o ≡ Ordering.gt) ⊎ ((o ≡ Ordering.lt) ⊎ (o ≡ Ordering.eq))
Ordering-cases Ordering.gt = inl refl
Ordering-cases Ordering.lt = inr (inl refl)
Ordering-cases Ordering.eq = inr (inr refl)

module _ {ℓ} {V : Type ℓ} where
  -- An insertion goes before the rest or past its first entry.
  pub insert_key-cases :
      (k j : String) (v w : V) (m : Map String V)
      → ((insert_key k v ((j, w) ∷ m) ≡ (k, v) ∷ (j, w) ∷ m) × (compare k j ≢ Ordering.gt))
        ⊎ ((insert_key k v ((j, w) ∷ m) ≡ (j, w) ∷ insert_key k v m) × (compare k j ≡ Ordering.gt))
  unfolding insert_key
  insert_key-cases k j v w m = elim (Ordering-cases (compare k j)) [
    | inl after ↦ inr (rw (after, insert_key) refl, after)
    | inr early ↦ elim early [
      | inl before ↦ inl (rw (before, insert_key) refl, λ q. absurd cc)
      | inr same ↦ inl (rw (same, insert_key) refl, λ q. absurd cc)
    ]
  ]

  -- The first key of the map, if it has one, is not smaller.
  abbrev Below : String → Map String V → Type 0
  Below k [] = Unit
  Below k ((j, _) ∷ m) = compare k j ≢ Ordering.gt

  abbrev pub Ordered : Map String V → Type 0
  Ordered [] = Unit
  Ordered ((k, _) ∷ m) = Below k m × Ordered m

  Below-insert_key :
      (j k : String) (v : V) (m : Map String V)
      → compare j k ≢ Ordering.gt
      → Below j m
      → Below j (insert_key k v m)
  unfolding insert_key
  Below-insert_key j k v [] h b = h
  Below-insert_key j k v ((i, w) ∷ m) h b = elim (insert_key-cases k i v w m) [
    | inl (first, _) ↦ subst (Below j) (sym first) h
    | inr (later, _) ↦ subst (Below j) (sym later) b
  ]

  insert_key-Ordered :
      (k : String) (v : V) (m : Map String V) → Ordered m → Ordered (insert_key k v m)
  unfolding insert_key
  insert_key-Ordered k v [] o = (tt, tt)
  insert_key-Ordered k v ((j, w) ∷ m) o = elim (insert_key-cases k j v w m) [
    | inl (first, below) ↦ subst Ordered (sym first) (below, o)
    | inr (later, above) ↦
        subst Ordered (sym later)
          (Below-insert_key j k v m (compare-flip k j above) o.0, insert_key-Ordered k v m o.1)
  ]

  -- The keys of a sorted map ascend.
  pub sort_keys-Ordered : (m : Map String V) → Ordered (sort_keys m)
  unfolding sort_keys
  sort_keys-Ordered [] = tt
  sort_keys-Ordered ((k, v) ∷ m) = insert_key-Ordered k v (sort_keys m) (sort_keys-Ordered m)
