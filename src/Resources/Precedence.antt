-- ===== src/Resources/Precedence.antt =====
-- pulp-cell/resources/resources.go: who wins.
use Prim.Native.String.{◌++◌}
use bananagine.Prelude.{
  ℕ, ◌*◌, ◌^◌, ◌<◌, ◌≡◌, String, string_eq, pos, int_eq, ◌==◌, eq_iff, ◌&&◌, Option, some,
  if◌then◌else◌, arith,
}
use bananagine.Map.{Map, get, put, get-put, Unique}
use bananagine.Map.Values.{get-put_all, or_else}
use bananagine.Text.Decimal.{decimal_int}
use bananagine.Allocation.Capacity.{Float64}
use bananagine.Orchestration.{ResourceOverride}
use bananagine.Resources.{entries, is_positive, Container, memory_of, swap_of, heap_of, apply}

module _ (f : Float64) where
  with_heap : Container f → ResourceOverride f → Map String String
  with_heap c o =
      if is_positive (heap_of f o)
      then put (entries c.environment) "MEMORY" (decimal_int (heap_of f o) ++ "M")
      else entries c.environment

  -- The value of a variable after `apply`: the caller's, then the derived heap for MEMORY, then the
  -- template's.
  pub environment-apply :
      (c : Container f) (o : ResourceOverride f) (caller_env : Option (Map String String))
      (name : String)
      → Unique (entries caller_env)
      → get (entries (apply f c o caller_env).environment) name
        ≡ or_else (get (entries caller_env) name) (
            if name == "MEMORY" && is_positive (heap_of f o)
            then some (decimal_int (heap_of f o) ++ "M")
            else get (entries c.environment) name)
  unfolding apply with_heap
  environment-apply c o caller_env name u = ground (
    arith,
    get-put_all (with_heap c o) (entries caller_env) name u,
    eq_iff "MEMORY" name,
    eq_iff name "MEMORY",
    get-put (entries c.environment) "MEMORY" name (decimal_int (heap_of f o) ++ "M"),
  )

  -- A tier below 2^43 megabytes sets the memory limit to that many megabytes, whatever the legacy
  -- limit, and pins the swap to it.
  pub tier-apply :
      (c : Container f) (o : ResourceOverride f) (caller_env : Option (Map String String)) (mb : ℕ)
      → o.max_ram_mb ≡ pos mb
      → 0 < mb
      → mb < 2 ^ 43
      → ((apply f c o caller_env).memory_limit ≡ pos (mb * 2 ^ 20))
        × ((apply f c o caller_env).memory_swap ≡ (apply f c o caller_env).memory_limit)
  unfolding apply memory_of swap_of heap_of
  tier-apply c o caller_env mb h p q = (rw h (ground arith), ground arith)
