-- ===== src/Allocation/Capacity.antt =====
-- pulp-cell/capacity.go. The arithmetic of float64 and Marrow's `capacity.CanFit` are parameters.
pub mod Totals
pub mod Whole
pub mod Accounts
pub mod History
use bananagine.Prelude.{String, ℤ, Bool, ◌&&◌, string_eq, Option, none, some, [], if◌then◌else◌, ℕ}
use bananagine.Map.{Map, get, put, delete, size}
use bananagine.Service.{Result, ok, err}

-- What the tracker uses of float64: `gib n` is float64(n) / (1024 * 1024 * 1024), `gt` is `>`.
pub record Float64 : Type 1 where
  pub Amount : Type 0
  pub zero : Amount
  pub add : Amount → Amount → Amount
  pub sub : Amount → Amount → Amount
  pub gt : Amount → Amount → Bool
  pub gib : ℤ → Amount

-- The laws of exact arithmetic, which float64 has where no operation rounds.
pub record IsExact (f : Float64) : Type 0 where
  pub add_assoc : (a b c : f.Amount) → Path f.Amount (f.add (f.add a b) c) (f.add a (f.add b c))
  pub add_comm : (a b : f.Amount) → Path f.Amount (f.add a b) (f.add b a)
  pub zero-add : (a : f.Amount) → Path f.Amount (f.add f.zero a) a
  pub add-sub : (a b : f.Amount) → Path f.Amount (f.sub (f.add a b) b) a

module _ (f : Float64) where
  open f use {Amount, add, sub, gt, gib, zero}

  -- capacity.Resources, and the anonymous struct of `containers`.
  pub record Resources : Type 0 where
    pub cpu : Amount
    pub memory_gib : Amount

  pub data CapacityError : Type 0 where
    cpu_exceeded : Amount → Amount → Amount → CapacityError
    memory_exceeded : Amount → Amount → Amount → CapacityError

  pub record Tracker : Type 0 where
    pub cpu_budget : Amount
    pub mem_budget : Amount
    pub alloc_cpu : Amount
    pub alloc_mem : Amount
    pub containers : Map String Resources

  unfoldable pub new_capacity_tracker : Amount → Amount → Tracker
  new_capacity_tracker cpu_budget mem_budget = record {
    cpu_budget = cpu_budget;
    mem_budget = mem_budget;
    alloc_cpu = zero;
    alloc_mem = zero;
    containers = [];
  }

  abbrev pub CanFit : Type 0
  CanFit = Resources → Resources → Resources → Bool

  abbrev pub used : Tracker → Resources
  used ct = record { cpu = ct.alloc_cpu; memory_gib = ct.alloc_mem }

  abbrev pub budget : Tracker → Resources
  budget ct = record { cpu = ct.cpu_budget; memory_gib = ct.mem_budget }

  unfoldable pub try_allocate :
      CanFit → Tracker → String → Amount → ℤ → Tracker × Result CapacityError (Unit {0})
  try_allocate can_fit ct container_id cpu_limit mem_limit_bytes =
      let request : Resources = record { cpu = cpu_limit; memory_gib = gib mem_limit_bytes } in
      if can_fit (used ct) request (budget ct)
      then (
        record ct {
          alloc_cpu = add ct.alloc_cpu cpu_limit;
          alloc_mem = add ct.alloc_mem (gib mem_limit_bytes);
          containers = put ct.containers container_id request;
        },
        ok tt,
      )
      else (
        ct,
        err (
            if gt ct.cpu_budget zero && gt (add ct.alloc_cpu cpu_limit) ct.cpu_budget
            then cpu_exceeded ct.alloc_cpu cpu_limit ct.cpu_budget
            else memory_exceeded ct.alloc_mem (gib mem_limit_bytes) ct.mem_budget),
      )

  unfoldable pub commit : Tracker → String → String → Tracker
  commit ct temp_id real_id = elim (get ct.containers temp_id) [
    | none ↦ ct
    | some res ↦ record ct { containers = put (delete ct.containers temp_id) real_id res }
  ]

  unfoldable pub release : Tracker → String → Tracker
  release ct container_id = elim (get ct.containers container_id) [
    | none ↦ ct
    | some res ↦ record ct {
      alloc_cpu = sub ct.alloc_cpu res.cpu;
      alloc_mem = sub ct.alloc_mem res.memory_gib;
      containers = delete ct.containers container_id;
    }
  ]

  unfoldable pub snapshot : Tracker → Amount × Amount × ℕ
  snapshot ct = (ct.alloc_cpu, ct.alloc_mem, size ct.containers)
