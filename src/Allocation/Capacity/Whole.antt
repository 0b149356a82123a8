-- ===== src/Allocation/Capacity/Whole.antt =====
-- Whole numbers in place of float64: an arithmetic that is exact, for examples.
use bananagine.Prelude.{ℕ, ◌+◌, ◌-◌, ltb, pos_part, arith}
use bananagine.Allocation.Capacity.{Float64, IsExact}

-- gib counts units, not 2^30 of them.
abbrev pub whole : Float64
whole = record {
  Amount = ℕ;
  zero = 0;
  add = λ a b. a + b;
  sub = λ a b. a - b;
  gt = λ a b. ltb b a;
  gib = λ n. pos_part n;
}

pub whole-IsExact : IsExact whole
whole-IsExact = record {
  add_assoc = λ a b c. omega arith;
  add_comm = λ a b. omega arith;
  zero-add = λ a. omega arith;
  add-sub = λ a b. omega arith;
}
