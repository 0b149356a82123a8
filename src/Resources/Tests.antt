-- ===== src/Resources/Tests.antt =====
-- Runs of pulp-cell/resources/resources.go at concrete inputs.
use Prim.Native.String.{◌++◌}
use bananagine.Prelude.{String, string_eq, pos, ◌==◌, ◌&&◌, ◌≡◌, none, some, [], ◌∷◌, if◌then◌else◌}
use bananagine.Map.{get}
use bananagine.Map.Values.{or_else}
use bananagine.Text.Decimal.{decimal_int}
use bananagine.Allocation.Capacity.Whole.{whole}
use bananagine.Orchestration.{ResourceOverride}
use bananagine.Resources.{Container, entries, is_positive, heap_of, apply}
use bananagine.Resources.Precedence.{environment-apply}

abbrev memory : String
memory = "MEMORY"

abbrev container : Container whole
container = record {
  memory_limit = pos 1073741824;
  cpu_limit = 2;
  memory_swap = pos 0;
  environment = some ((memory, "1G") ∷ ("EULA", "TRUE") ∷ []);
}

abbrev tier : ResourceOverride whole
tier = record {
  memory_limit = pos 0;
  cpu_limit = 0;
  max_cpu_cores = 4;
  max_ram_mb = pos 6144;
  jvm_heap_mb = pos 0;
}

environment-apply_example :
    get (entries (apply whole container tier none).environment) memory
    ≡ or_else (get (entries {V = String} none) memory) (
        if memory == "MEMORY" && is_positive (heap_of whole tier)
        then some (decimal_int (heap_of whole tier) ++ "M")
        else get (entries container.environment) memory)
environment-apply_example = environment-apply whole container tier none memory tt
