-- ===== src/Map/Entries.antt =====
-- Reads, writes and deletions, and the invariant that no key stands twice.
use bananagine.Prelude.{
  ℕ, suc, ◌≡◌, refl, List, [], ◌∷◌, Option, none, some, arith, Eq, ◌==◌, if◌then◌else◌,
}

abbrev pub Map {ℓ κ} : Type ℓ → Type κ → Type (ℓ ⊔ κ)
Map K V = List (K × V)

module _ {ℓ κ} {K : Type ℓ} {V : Type κ} ⦃e : Eq K⦄ where
  -- v, ok := m[k]
  unfoldable pub get : Map K V → K → Option V
  get [] k = none
  get ((j, v) ∷ m) k = if j == k then some v else get m k

  -- m[k] = v
  unfoldable pub put : Map K V → K → V → Map K V
  put [] k v = (k, v) ∷ []
  put ((j, w) ∷ m) k v = if j == k then (k, v) ∷ m else (j, w) ∷ put m k v

  -- delete(m, k)
  unfoldable pub delete : Map K V → K → Map K V
  delete [] k = []
  delete ((j, w) ∷ m) k = if j == k then delete m k else (j, w) ∷ delete m k

  -- len(m)
  abbrev pub size : Map K V → ℕ
  size [] = 0
  size (_ ∷ m) = suc (size m)

  abbrev pub Unique : Map K V → Type κ
  Unique [] = Unit
  Unique ((k, _) ∷ m) = (get m k ≡ none) × Unique m

  pub get-put :
      (m : Map K V) (k j : K) (v : V) → get (put m k v) j ≡ (if k == j then some v else get m j)
  unfolding get put
  get-put [] k j v = refl
  get-put ((i, w) ∷ m) k j v =
      ground (arith, e.beq_iff k j, e.beq_iff i k, e.beq_iff i j, get-put m k j v)

  pub get-put_self : (m : Map K V) (k : K) (v : V) → get (put m k v) k ≡ some v
  get-put_self m k v = ground (arith, get-put m k k v, e.beq_iff k k)

  pub get-delete : (m : Map K V) (k j : K) → get (delete m k) j ≡ (if k == j then none else get m j)
  unfolding get delete
  get-delete [] k j = ground arith
  get-delete ((i, w) ∷ m) k j =
      ground (arith, e.beq_iff k j, e.beq_iff i k, e.beq_iff i j, get-delete m k j)

  pub put-Unique : (m : Map K V) (k : K) (v : V) → Unique m → Unique (put m k v)
  unfolding put get
  put-Unique [] k v u = (refl, tt)
  put-Unique ((i, w) ∷ m) k v u =
      ground (arith, e.beq_iff i k, e.beq_iff k i, get-put m k i v, put-Unique m k v u.1)

  pub delete-Unique : (m : Map K V) (k : K) → Unique m → Unique (delete m k)
  unfolding delete
  delete-Unique [] k u = tt
  delete-Unique ((i, w) ∷ m) k u =
      ground (arith, e.beq_iff k i, get-delete m k i, delete-Unique m k u.1)

pub ruleset map_laws = (get-put, get-put_self, get-delete)
