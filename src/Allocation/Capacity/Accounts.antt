-- ===== src/Allocation/Capacity/Accounts.antt =====
-- pulp-cell/capacity.go: the allocated amounts are the sums over the tracked containers.
use bananagine.Prelude.{
  String, ℤ, true, ◌≡◌, refl, string_eq, eq_iff, none, some, arith, inl, inr, Bool-cases,
  Option-cases, ap, ◌∙◌, sym,
}
use bananagine.Map.{
  Map, get, put, delete, get-put, get-put_self, get-delete, Unique, put-Unique, delete-Unique,
}
use bananagine.Service.{ok, err}
use bananagine.Allocation.Capacity.{
  Float64, IsExact, Resources, Tracker, CapacityError, CanFit, used, budget, new_capacity_tracker,
  try_allocate, commit, release,
}
use bananagine.Allocation.Capacity.Totals.{total, total-put_fresh, total-delete, total-delete_sub}

module _ (f : Float64) where
  abbrev pub cpu_of : Resources f → f.Amount
  cpu_of r = r.cpu

  abbrev pub mem_of : Resources f → f.Amount
  mem_of r = r.memory_gib

  -- No container is tracked twice, and the amounts are the sums of what the containers hold.
  pub record IsAccounted (ct : Tracker f) : Type 0 where
    pub unique : Unique ct.containers
    pub cpu : Path f.Amount ct.alloc_cpu (total f cpu_of ct.containers)
    pub mem : Path f.Amount ct.alloc_mem (total f mem_of ct.containers)

  -- The amounts and the tracked containers are those of another tracker.
  pub record SameCapacity (ct ct' : Tracker f) : Type 0 where
    pub cpu : Path f.Amount ct'.alloc_cpu ct.alloc_cpu
    pub mem : Path f.Amount ct'.alloc_mem ct.alloc_mem
    pub containers : (id : String) → get ct'.containers id ≡ get ct.containers id

  -- A released ID is tracked no more.
  pub get-release : (ct : Tracker f) (id : String) → get (release f ct id).containers id ≡ none
  unfolding release
  get-release ct id = elim (Option-cases (get ct.containers id)) [
    | inl e ↦ rw (e, release) e
    | inr (r, e) ↦ rw (e, release) (ground (arith, get-delete ct.containers id id, eq_iff id id))
  ]

  pub new-IsAccounted : (c m : f.Amount) → IsAccounted (new_capacity_tracker f c m)
  unfolding new_capacity_tracker total
  new-IsAccounted c m = record { unique = tt; cpu = refl; mem = refl }

module _ (f : Float64) (x : IsExact f) where
  moved :
      (w : Resources f → f.Amount) (ct : Tracker f) (temp_id real_id : String) (res : Resources f)
      → Unique ct.containers
      → get ct.containers temp_id ≡ some res
      → get (delete ct.containers temp_id) real_id ≡ none
      → Path f.Amount
          (total f w (put (delete ct.containers temp_id) real_id res))
          (total f w ct.containers)
  moved w ct temp_id real_id res u e fresh =
      total-put_fresh f x w (delete ct.containers temp_id) real_id res fresh
      ∙ total-delete f x w ct.containers temp_id res u e

  -- With exact arithmetic, an allocation under a new ID keeps the accounts: the allocated amounts are
  -- the sums over the tracked containers, each tracked once.
  pub try_allocate-IsAccounted :
      (can_fit : CanFit f) (ct : Tracker f) (id : String) (cpu : f.Amount) (bytes : ℤ)
      → get ct.containers id ≡ none
      → IsAccounted f ct
      → IsAccounted f (try_allocate f can_fit ct id cpu bytes).0
  unfolding try_allocate
  try_allocate-IsAccounted can_fit ct id cpu bytes fresh a =
      let r : Resources f = record { cpu = cpu; memory_gib = f.gib bytes } in
      elim (Bool-cases (can_fit (used f ct) r (budget f ct))) [
        | inl fits ↦
            rw (fits, try_allocate)
              (record {
                unique = put-Unique ct.containers id r a.unique;
                cpu =
                    ap (λ t. f.add t cpu) a.cpu
                    ∙ sym (total-put_fresh f x (cpu_of f) ct.containers id r fresh);
                mem =
                    ap (λ t. f.add t (f.gib bytes)) a.mem
                    ∙ sym (total-put_fresh f x (mem_of f) ct.containers id r fresh);
              })
        | inr full ↦ rw (full, try_allocate) a
      ]

  -- With exact arithmetic, a release keeps the accounts: the allocated amounts are the sums over the
  -- tracked containers.
  pub release-IsAccounted :
      (ct : Tracker f) (id : String) → IsAccounted f ct → IsAccounted f (release f ct id)
  unfolding release
  release-IsAccounted ct id a = elim (Option-cases (get ct.containers id)) [
    | inl e ↦ rw (e, release) a
    | inr (res, e) ↦
        rw (e, release)
          (record {
            unique = delete-Unique ct.containers id a.unique;
            cpu =
                ap (λ t. f.sub t res.cpu) a.cpu
                ∙ total-delete_sub f x (cpu_of f) ct.containers id res a.unique e;
            mem =
                ap (λ t. f.sub t res.memory_gib) a.mem
                ∙ total-delete_sub f x (mem_of f) ct.containers id res a.unique e;
          })
  ]

  -- With exact arithmetic, a commit to an ID that is not tracked otherwise keeps the accounts.
  pub commit-IsAccounted :
      (ct : Tracker f) (temp_id real_id : String)
      → get (delete ct.containers temp_id) real_id ≡ none
      → IsAccounted f ct
      → IsAccounted f (commit f ct temp_id real_id)
  unfolding commit
  commit-IsAccounted ct temp_id real_id fresh a = elim (Option-cases (get ct.containers temp_id)) [
    | inl e ↦ rw (e, commit) a
    | inr (res, e) ↦
        rw (e, commit)
          (record {
            unique =
                put-Unique (delete ct.containers temp_id) real_id res
                  (delete-Unique ct.containers temp_id a.unique);
            cpu = a.cpu ∙ sym (moved (cpu_of f) ct temp_id real_id res a.unique e fresh);
            mem = a.mem ∙ sym (moved (mem_of f) ct temp_id real_id res a.unique e fresh);
          })
  ]

  holding : Tracker f → Map String (Resources f) → Resources f → Tracker f
  holding ct m r = record ct {
    alloc_cpu = f.add ct.alloc_cpu r.cpu;
    alloc_mem = f.add ct.alloc_mem r.memory_gib;
    containers = m;
  }

  allocated :
      (can_fit : CanFit f) (ct : Tracker f) (id : String) (cpu : f.Amount) (bytes : ℤ)
      → let r : Resources f = record { cpu = cpu; memory_gib = f.gib bytes } in
        can_fit (used f ct) r (budget f ct) ≡ true
        → (try_allocate f can_fit ct id cpu bytes).0 ≡ holding ct (put ct.containers id r) r
  unfolding try_allocate holding
  allocated can_fit ct id cpu bytes fits = rw (fits, try_allocate)

  committed :
      (ct : Tracker f) (temp_id real_id : String) (r : Resources f)
      → get ct.containers temp_id ≡ some r
      → commit f ct temp_id real_id
        ≡ record ct { containers = put (delete ct.containers temp_id) real_id r }
  unfolding commit
  committed ct temp_id real_id r e = rw (e, commit)

  released :
      (ct : Tracker f) (id : String) (r : Resources f)
      → get ct.containers id ≡ some r
      → release f ct id ≡ record ct {
        alloc_cpu = f.sub ct.alloc_cpu r.cpu;
        alloc_mem = f.sub ct.alloc_mem r.memory_gib;
        containers = delete ct.containers id;
      }
  unfolding release
  released ct id r e = rw (e, release)

  -- With exact arithmetic, an allocation that fits, its commit to the container's ID and the release
  -- of that ID leave the amounts and the tracked containers as they were, if neither ID was tracked.
  pub try_allocate-commit-release :
      (can_fit : CanFit f) (ct : Tracker f) (temp_id real_id : String) (cpu : f.Amount) (bytes : ℤ)
      → get ct.containers temp_id ≡ none
      → get ct.containers real_id ≡ none
      → (try_allocate f can_fit ct temp_id cpu bytes).1 ≡ ok tt
      → SameCapacity f ct (
          release f
            (commit f (try_allocate f can_fit ct temp_id cpu bytes).0 temp_id real_id)
            real_id)
  unfolding holding try_allocate
  try_allocate-commit-release can_fit ct temp_id real_id cpu bytes fresh fresh' done =
      let r : Resources f = record { cpu = cpu; memory_gib = f.gib bytes } in
      let first : Map String (Resources f) = put ct.containers temp_id r in
      let second : Map String (Resources f) = put (delete first temp_id) real_id r in
      elim (Bool-cases (can_fit (used f ct) r (budget f ct))) [
        | inr full ↦ absurd (ground arith)
        | inl fits ↦
            rw
              (
                allocated can_fit ct temp_id cpu bytes fits,
                committed (holding ct first r) temp_id real_id r
                    (get-put_self ct.containers temp_id r),
                released (holding ct second r) real_id r
                    (get-put_self (delete first temp_id) real_id r),
              )
              (record {
                cpu = x.add-sub ct.alloc_cpu cpu;
                mem = x.add-sub ct.alloc_mem (f.gib bytes);
                containers = λ id. ground (
                  arith,
                  eq_iff temp_id id,
                  eq_iff real_id id,
                  get-delete second real_id id,
                  get-put (delete first temp_id) real_id id r,
                  get-delete first temp_id id,
                  get-put ct.containers temp_id id r,
                );
              })
      ]

  -- An allocation under a new ID and its release cancel out.
  pub try_allocate-release :
      (can_fit : CanFit f) (ct : Tracker f) (id : String) (cpu : f.Amount) (bytes : ℤ)
      → get ct.containers id ≡ none
      → (try_allocate f can_fit ct id cpu bytes).1 ≡ ok tt
      → SameCapacity f ct (release f (try_allocate f can_fit ct id cpu bytes).0 id)
  unfolding holding try_allocate
  try_allocate-release can_fit ct id cpu bytes fresh done =
      let r : Resources f = record { cpu = cpu; memory_gib = f.gib bytes } in
      let first : Map String (Resources f) = put ct.containers id r in
      elim (Bool-cases (can_fit (used f ct) r (budget f ct))) [
        | inr full ↦ absurd (ground arith)
        | inl fits ↦
            rw
              (
                allocated can_fit ct id cpu bytes fits,
                released (holding ct first r) id r (get-put_self ct.containers id r),
              )
              (record {
                cpu = x.add-sub ct.alloc_cpu cpu;
                mem = x.add-sub ct.alloc_mem (f.gib bytes);
                containers = λ j.
                    ground
                      (arith, eq_iff id j, get-delete first id j, get-put ct.containers id j r);
              })
      ]

  -- A refused allocation changes nothing.
  pub try_allocate-refused :
      (can_fit : CanFit f) (ct : Tracker f) (id : String) (cpu : f.Amount) (bytes : ℤ)
      (e : CapacityError f)
      → (try_allocate f can_fit ct id cpu bytes).1 ≡ err e
      → (try_allocate f can_fit ct id cpu bytes).0 ≡ ct
  unfolding try_allocate
  try_allocate-refused can_fit ct id cpu bytes e h =
      elim (Bool-cases
        (can_fit (used f ct) (record { cpu = cpu; memory_gib = f.gib bytes }) (budget f ct))) [
          | inl fits ↦ absurd (ground arith)
          | inr full ↦ rw (full, try_allocate)
        ]
