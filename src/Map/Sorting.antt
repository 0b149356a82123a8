-- ===== src/Map/Sorting.antt =====
-- sort.Strings on the keys of a map, by insertion, with the values beside them.
pub mod Kept
pub mod Ordered
use Prim.Native.Nat.{Ordering}
use Prim.Native.String.{compare}
use bananagine.Prelude.{String, [], ◌∷◌}
use bananagine.Map.Entries.{Map}

module _ {ℓ} {V : Type ℓ} where
  unfoldable pub insert_key : String → V → Map String V → Map String V
  insert_key key value [] = (key, value) ∷ []
  insert_key key value ((other, v) ∷ rest) = elim (compare key other) [
    | Ordering.lt ↦ (key, value) ∷ (other, v) ∷ rest
    | Ordering.eq ↦ (key, value) ∷ (other, v) ∷ rest
    | Ordering.gt ↦ (other, v) ∷ insert_key key value rest
  ]

  unfoldable pub sort_keys : Map String V → Map String V
  unfolding insert_key
  sort_keys [] = []
  sort_keys ((key, value) ∷ rest) = insert_key key value (sort_keys rest)
