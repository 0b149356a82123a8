-- ===== src/Map.antt =====
-- Go's `map[K]V`, as a list of entries. The order of the list stands for the order in which a
-- `range` loop meets the keys, which Go leaves open: theorems hold for every list, so for every order.
mod Entries
pub mod Values
pub mod Sorting
unfoldable pub use Entries.*
