-- ===== src/Map/Values.antt =====
-- Loops over a map that act on the values.
use bananagine.Prelude.{◌≡◌, refl, Bool, [], ◌∷◌, Option, none, some, arith, Eq, if◌then◌else◌}
use mathlib.Core.Option
use bananagine.Map.Entries.{Map, get, put, get-put, Unique}

module _ {ℓ κ μ} {K : Type ℓ} {V : Type κ} {W : Type μ} where
  -- for k, v := range m { m'[k] = f(v) }
  unfoldable pub map_values : (V → W) → Map K V → Map K W
  map_values f [] = []
  map_values f ((k, v) ∷ m) = (k, f v) ∷ map_values f m

module _ {ℓ κ} {K : Type ℓ} {V : Type κ} where
  -- for k, v := range m { if p(v) { delete(m, k) } }
  unfoldable pub delete_where : (V → Bool) → Map K V → Map K V
  delete_where p [] = []
  delete_where p ((k, v) ∷ m) = if p v then delete_where p m else (k, v) ∷ delete_where p m

abbrev pub or_else {ℓ} : {V : Type ℓ} → Option V → Option V → Option V
or_else none o = o
or_else (some v) o = some v

-- What a deletion by a test on the value leaves of a read.
abbrev pub unless {ℓ} : {V : Type ℓ} → (V → Bool) → Option V → Option V
unless p none = none
unless p (some v) = if p v then none else some v

module _ {ℓ κ μ} {K : Type ℓ} {V : Type κ} {W : Type μ} ⦃e : Eq K⦄ where
  pub get-map_values :
      (f : V → W) (m : Map K V) (k : K) → get (map_values f m) k ≡ Option.map f (get m k)
  unfolding get map_values
  get-map_values f [] k = refl
  get-map_values f ((j, v) ∷ m) k = ground (arith, get-map_values f m k)

  pub map_values-Unique : (f : V → W) (m : Map K V) → Unique m → Unique (map_values f m)
  unfolding map_values
  map_values-Unique f [] u = tt
  map_values-Unique f ((j, v) ∷ m) u =
      ground (arith, get-map_values f m j, map_values-Unique f m u.1)

module _ {ℓ κ} {K : Type ℓ} {V : Type κ} ⦃e : Eq K⦄ where
  pub get-delete_where :
      (p : V → Bool) (m : Map K V) (k : K)
      → Unique m
      → get (delete_where p m) k ≡ unless p (get m k)
  unfolding get delete_where
  get-delete_where p [] k u = refl
  get-delete_where p ((j, v) ∷ m) k u =
      ground (arith, e.beq_iff j k, get-delete_where p m k u.1, get-delete_where p m j u.1)

  pub delete_where-Unique : (p : V → Bool) (m : Map K V) → Unique m → Unique (delete_where p m)
  unfolding delete_where
  delete_where-Unique p [] u = tt
  delete_where-Unique p ((j, v) ∷ m) u =
      ground (arith, get-delete_where p m j u.1, delete_where-Unique p m u.1)

module _ {ℓ κ} {K : Type ℓ} {V : Type κ} ⦃e : Eq K⦄ where
  -- for k, v := range src { m[k] = v }
  unfoldable pub put_all : Map K V → Map K V → Map K V
  put_all m [] = m
  put_all m ((k, v) ∷ src) = put_all (put m k v) src

  pub get-put_all :
      (m src : Map K V) (k : K) → Unique src → get (put_all m src) k ≡ or_else (get src k) (get m k)
  unfolding get put_all
  get-put_all m [] k u = refl
  get-put_all m ((j, v) ∷ src) k u =
      ground (arith, e.beq_iff j k, get-put_all (put m j v) src k u.1, get-put m j k v, u.0)
