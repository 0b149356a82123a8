-- ===== src/Allocation/Capacity/Totals.antt =====
-- The sum of a weight over the values of a map, in exact arithmetic.
use bananagine.Prelude.{
  ◌≡◌, refl, Eq, ◌==◌, none, some, [], ◌∷◌, arith, inl, inr, Bool-cases, ap, ◌∙◌, sym,
}
use bananagine.Map.{Map, get, put, delete, Unique}
use bananagine.Allocation.Capacity.{Float64, IsExact}

unfoldable pub total {ℓ κ} :
    {K : Type ℓ} {V : Type κ} (f : Float64) → (V → f.Amount) → Map K V → f.Amount
total f w [] = f.zero
total f w ((k, v) ∷ m) = f.add (w v) (total f w m)

module _ {ℓ κ} {K : Type ℓ} {V : Type κ} ⦃e : Eq K⦄ (f : Float64) (x : IsExact f)
    (w : V → f.Amount) where
  pub total-put_fresh :
      (m : Map K V) (k : K) (v : V)
      → get m k ≡ none
      → total f w (put m k v) ≡ f.add (total f w m) (w v)
  unfolding total get put
  total-put_fresh [] k v h = x.add_comm (w v) f.zero
  total-put_fresh ((j, u) ∷ m) k v h = elim (Bool-cases (j == k)) [
    | inl hit ↦ absurd (ground arith)
    | inr miss ↦ rw miss (
        ap (f.add (w u)) (total-put_fresh m k v (ground arith))
        ∙ sym (x.add_assoc (w u) (total f w m) (w v)))
  ]

  total-delete_absent :
      (m : Map K V) (k : K) → get m k ≡ none → total f w (delete m k) ≡ total f w m
  unfolding total get delete
  total-delete_absent [] k h = refl
  total-delete_absent ((j, u) ∷ m) k h = ground (arith, total-delete_absent m k)

  -- A deletion takes the weight of its value off the sum.
  pub total-delete :
      (m : Map K V) (k : K) (v : V)
      → Unique m
      → get m k ≡ some v
      → f.add (total f w (delete m k)) (w v) ≡ total f w m
  unfolding total get delete
  total-delete [] k v u h = absurd (ground arith)
  total-delete ((j, y) ∷ m) k v u h = elim (Bool-cases (j == k)) [
    | inl hit ↦
        let same : y ≡ v = ground arith in
        let absent : get m k ≡ none = ground (arith, e.beq_iff j k, u.0) in
        rw hit (
          ap (λ t. f.add t (w v)) (total-delete_absent m k absent)
          ∙ x.add_comm (total f w m) (w v)
          ∙ ap (λ z. f.add (w z) (total f w m)) (sym same))
    | inr miss ↦ rw miss (
        x.add_assoc (w y) (total f w (delete m k)) (w v)
        ∙ ap (f.add (w y)) (total-delete m k v u.1 (ground arith)))
  ]

  pub total-delete_sub :
      (m : Map K V) (k : K) (v : V)
      → Unique m
      → get m k ≡ some v
      → Path f.Amount (f.sub (total f w m) (w v)) (total f w (delete m k))
  total-delete_sub m k v u h =
      ap (λ t. f.sub t (w v)) (sym (total-delete m k v u h))
      ∙ x.add-sub (total f w (delete m k)) (w v)
