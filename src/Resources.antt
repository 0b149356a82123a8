-- ===== src/Resources.antt =====
-- pulp-cell/resources/resources.go: the resource limits and the JVM heap of a new server.
pub mod Precedence
mod Tests
use Prim.Native.String.{◌++◌}
use bananagine.Prelude.{
  ℕ, suc, ◌+◌, ◌-◌, ◌*◌, ◌%◌, ◌^◌, ltb, leb, String, string_eq, ℤ, pos, negsuc, pos_part, int_eq,
  ◌==◌, Bool, ◌&&◌, Option, none, some, [], if◌then◌else◌,
}
use bananagine.Map.{Map, get, put}
use bananagine.Map.Values.{put_all}
use bananagine.Text.Decimal.{decimal_int}
use bananagine.Allocation.Capacity.{Float64}
use bananagine.Orchestration.{ResourceOverride}

-- A nil map has no entries to range over.
abbrev pub entries {ℓ} : {V : Type ℓ} → Option (Map String V) → Map String V
entries none = []
entries (some m) = m

-- n, as an int64 that wraps around.
abbrev pub wrap_int64 : ℕ → ℤ
wrap_int64 n = let r = n % 2 ^ 64 in if ltb r (2 ^ 63) then pos r else negsuc (2 ^ 64 - 1 - r)

abbrev pub is_positive : ℤ → Bool
is_positive n = ltb 0 (pos_part n)

-- max_ram_mb - 1536, where max_ram_mb > 0.
abbrev pub less_overhead : ℤ → ℤ
less_overhead n =
    if leb 1536 (pos_part n) then pos (pos_part n - 1536) else negsuc (1536 - pos_part n - 1)

module _ (f : Float64) where
  open f use {Amount, gt, zero}

  pub record Container : Type 0 where
    pub memory_limit : ℤ
    pub cpu_limit : Amount
    pub memory_swap : ℤ
    pub environment : Option (Map String String)

  unfoldable pub memory_of : Container → ResourceOverride f → ℤ
  memory_of c o =
      if is_positive o.max_ram_mb
      then wrap_int64 (pos_part o.max_ram_mb * 1024 * 1024)
      else if is_positive o.memory_limit
      then o.memory_limit
      else c.memory_limit

  unfoldable pub swap_of : Container → ResourceOverride f → ℤ
  unfolding memory_of
  swap_of c o = if is_positive o.max_ram_mb then memory_of c o else c.memory_swap

  unfoldable pub cpu_of : Container → ResourceOverride f → Amount
  cpu_of c o =
      if gt o.max_cpu_cores zero
      then o.max_cpu_cores
      else if gt o.cpu_limit zero
      then o.cpu_limit
      else c.cpu_limit

  -- effectiveJvmHeapMb.
  unfoldable pub heap_of : ResourceOverride f → ℤ
  heap_of o =
      if o.jvm_heap_mb == pos 0 && is_positive o.max_ram_mb
      then less_overhead o.max_ram_mb
      else o.jvm_heap_mb

  unfoldable pub apply : Container → ResourceOverride f → Option (Map String String) → Container
  unfolding memory_of swap_of cpu_of heap_of decimal_int
  apply c o caller_env =
      let heap = heap_of o in
      let env = entries c.environment in
      let env' = if is_positive heap then put env "MEMORY" (decimal_int heap ++ "M") else env in
      record {
        memory_limit = memory_of c o;
        cpu_limit = cpu_of c o;
        memory_swap = swap_of c o;
        environment = some (put_all env' (entries caller_env));
      }
