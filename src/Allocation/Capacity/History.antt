-- ===== src/Allocation/Capacity/History.antt =====
-- pulp-cell/capacity.go: the trackers that a history of calls leads to.
use bananagine.Prelude.{String, ℤ, ◌≡◌, string_eq, none}
use bananagine.Map.{get, delete}
use bananagine.Allocation.Capacity.{
  Float64, IsExact, Tracker, CanFit, new_capacity_tracker, try_allocate, commit, release,
}
use bananagine.Allocation.Capacity.Accounts.{
  IsAccounted, new-IsAccounted, try_allocate-IsAccounted, commit-IsAccounted, release-IsAccounted,
}

module _ (f : Float64) (can_fit : CanFit f) where
  -- One call. The callers allocate under an ID that holds nothing, and commit to one that holds nothing.
  pub data Call : Tracker f → Tracker f → Type 0 where
    allocates :
        (ct : Tracker f) (id : String) (cpu : f.Amount) (bytes : ℤ)
        → get ct.containers id ≡ none
        → Call ct (try_allocate f can_fit ct id cpu bytes).0
    commits :
        (ct : Tracker f) (temp_id real_id : String)
        → get (delete ct.containers temp_id) real_id ≡ none
        → Call ct (commit f ct temp_id real_id)
    releases : (ct : Tracker f) (id : String) → Call ct (release f ct id)

  pub data History (ct : Tracker f) : Tracker f → Type 0 where
    here : History ct ct
    next : {a b : Tracker f} → History ct a → Call a b → History ct b

  module _ (x : IsExact f) where
    Call-IsAccounted : {a b : Tracker f} → Call a b → IsAccounted f a → IsAccounted f b
    Call-IsAccounted (Call.allocates ct id cpu bytes fresh) h =
        try_allocate-IsAccounted f x can_fit ct id cpu bytes fresh h
    Call-IsAccounted (Call.commits ct temp_id real_id fresh) h =
        commit-IsAccounted f x ct temp_id real_id fresh h
    Call-IsAccounted (Call.releases ct id) h = release-IsAccounted f x ct id h

    History-IsAccounted : {a b : Tracker f} → IsAccounted f a → History a b → IsAccounted f b
    History-IsAccounted h History.here = h
    History-IsAccounted h (History.next before call) =
        Call-IsAccounted call (History-IsAccounted h before)

    -- With exact arithmetic, any order of allocations, commits and releases, refused allocations
    -- included, leads from the empty tracker to one whose allocated amounts are the sums over the
    -- tracked containers, each tracked once, as long as no call reuses an ID that holds resources.
    pub History-IsAccounted_from_new :
        (cpu mem : f.Amount) (ct : Tracker f)
        → History (new_capacity_tracker f cpu mem) ct
        → IsAccounted f ct
    History-IsAccounted_from_new cpu mem ct history =
        History-IsAccounted (new-IsAccounted f cpu mem) history
