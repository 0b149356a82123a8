-- ===== src/Creation/Core/Retry.antt =====
-- pulp-cell/creation_core.go: what a create call does before it allocates anything.
use bananagine.Prelude.{
  String, true, false, not, ◌||◌, string_eq, ◌==◌, Option, none, some, ◌≡◌, ◌≢◌, refl, ap, sym,
  subst, arith, eq_iff, inl, inr, Bool-cases, Option-cases, Bool,
}
use bananagine.Text.Identity.{valid_recreate_token}
use bananagine.Service.{Result, ok, err}
use bananagine.Allocation.Capacity.{Float64}
use bananagine.Orchestration.{CreateServerRequest}
use bananagine.Creation.Host.{DockerServer, Cause, needs_fenced_recovery, retire_failed, Host}
use bananagine.Creation.Lookup.{existing_server}
use bananagine.Creation.Core.{
  Node, CreationCore, Outcome, failed_create_runtime_status, response_server, after_lookup,
  preflight, go_on, provision, create_fenced,
}

module _ (f : Float64) (h : Host f) (core : CreationCore f h) (req : CreateServerRequest f)
    (key effect : String) where
  -- Both identities of a fenced call are valid.
  abbrev IsFenced : Type 0
  IsFenced = (valid_recreate_token key ≡ true) × (valid_recreate_token effect ≡ true)

  -- The node after a lookup.
  abbrev looked_up : Node f h → h.World → Node f h
  looked_up n w = record n { world = w }

  -- When a creation may go on, and the node it goes on with: no ID was asked for, or none is there of
  -- that ID, or the one that is there has failed and the recovery of a fenced call has retired it.
  pub data MayProvision (n : Node f h) : Node f h → Type 0 where
    unnamed : req.server_id ≡ "" → MayProvision n n
    absent :
        (w : h.World)
        → req.server_id ≢ ""
        → existing_server f h req.server_id n.world ≡ (ok none, w)
        → MayProvision n (looked_up n w)
    recovered :
        (server : DockerServer f) (w : h.World)
        (recover : String → String → Node f h → Option (Cause f) × Node f h) (n' : Node f h)
        → req.server_id ≢ ""
        → existing_server f h req.server_id n.world ≡ (ok (some server), w)
        → failed_create_runtime_status server.status ≡ true
        → IsFenced
        → core.recover_failed ≡ some recover
        → recover server.id req.server_id (looked_up n w) ≡ (none, n')
        → MayProvision n n'

  -- The answers of a call on the node: it allocates only where the creation may go on, and otherwise the
  -- node is as the lookup left it, or as a failed recovery left it.
  pub data Reconciled (n : Node f h) : Outcome f h → Type 0 where
    provisions : (n' : Node f h) → MayProvision n n' → Reconciled n (provision f h core req n')
    answers :
        (server : DockerServer f) (w : h.World)
        → req.server_id ≢ ""
        → existing_server f h req.server_id n.world ≡ (ok (some server), w)
        → failed_create_runtime_status server.status ≡ false
        → Reconciled n (
          ok (record { server = response_server f h core server req.server_id; existing = true }),
          looked_up n w,
        )
    lookup_failed :
        (cause : Cause f) (w : h.World)
        → req.server_id ≢ ""
        → existing_server f h req.server_id n.world ≡ (err cause, w)
        → Reconciled n (err (record { status = 500; cause = cause }), looked_up n w)
    unfenced :
        (server : DockerServer f) (w : h.World)
        → req.server_id ≢ ""
        → existing_server f h req.server_id n.world ≡ (ok (some server), w)
        → failed_create_runtime_status server.status ≡ true
        → (IsFenced → core.recover_failed ≡ none)
        → Reconciled n (err (record { status = 409; cause = needs_fenced_recovery }), looked_up n w)
    unretired :
        (server : DockerServer f) (w : h.World)
        (recover : String → String → Node f h → Option (Cause f) × Node f h) (cause : Cause f)
        (n' : Node f h)
        → req.server_id ≢ ""
        → existing_server f h req.server_id n.world ≡ (ok (some server), w)
        → failed_create_runtime_status server.status ≡ true
        → IsFenced
        → core.recover_failed ≡ some recover
        → recover server.id req.server_id (looked_up n w) ≡ (some cause, n')
        → Reconciled n (err (record { status = 500; cause = retire_failed cause }), n')

  -- The rest of a call after the lookup of a named ID.
  resumed : Result (Cause f) (Option (DockerServer f)) → Node f h → Outcome f h
  unfolding after_lookup go_on
  resumed found n1 =
      let (checked, n2) = after_lookup f h core req key effect found n1 in
      go_on f h core req checked n2

  both_valid : (a b : Bool) → not a || not b ≡ false → (a ≡ true) × (b ≡ true)
  both_valid a b q = (ground arith, ground arith)

  not_both : (a b : Bool) → not a || not b ≡ true → a ≡ true → b ≢ true
  not_both a b q p r = ground arith

  resumed-failed :
      (n : Node f h) (server : DockerServer f) (w : h.World)
      → req.server_id ≢ ""
      → existing_server f h req.server_id n.world ≡ (ok (some server), w)
      → failed_create_runtime_status server.status ≡ true
      → Reconciled n (resumed (ok (some server)) (looked_up n w))
  unfolding resumed
  resumed-failed n server w named found failed = elim (Option-cases core.recover_failed) [
    | inl unset ↦
        let refused : resumed (ok (some server)) n1 ≡ refusal = rw (failed, unset, resumed) refl in
        subst (Reconciled n) (sym refused)
          (Reconciled.unfenced server w named found failed (λ _. unset))
    | inr (recover, given) ↦ elim (Bool-cases (not k || not e)) [
      | inl invalid ↦
          let refused : resumed (ok (some server)) n1 ≡ refusal =
            rw (failed, given, invalid, resumed) refl in
          subst (Reconciled n) (sym refused) (
            Reconciled.unfenced server w named found failed
              (λ fenced. absurd (not_both k e invalid fenced.0 fenced.1)))
      | inr valid ↦
          let n2 = (recover server.id req.server_id n1).1 in
          let fenced = both_valid k e valid in
          elim (Option-cases (recover server.id req.server_id n1).0) [
            | inr (cause, ran) ↦
                let kept : resumed (ok (some server)) n1
                    ≡ (err (record { status = 500; cause = retire_failed cause }), n2) =
                  rw (failed, given, valid, ran, resumed) refl in
                subst (Reconciled n) (sym kept) (
                  Reconciled.unretired server w recover cause n2 named found failed fenced given
                    (ap (λ o. (o, n2)) ran))
            | inl ran ↦
                let onward : resumed (ok (some server)) n1 ≡ provision f h core req n2 =
                  rw (failed, given, valid, ran, resumed) refl in
                subst (Reconciled n) (sym onward) (
                  Reconciled.provisions n2 (
                    MayProvision.recovered server w recover n2 named found failed fenced given
                      (ap (λ o. (o, n2)) ran)))
          ]
    ]
  ]
    where
      k : Bool
      k = valid_recreate_token key

      e : Bool
      e = valid_recreate_token effect

      n1 : Node f h
      n1 = looked_up n w

      refusal : Outcome f h
      refusal = (err (record { status = 409; cause = needs_fenced_recovery }), n1)

  resumed-Reconciled :
      (n : Node f h) (found : Result (Cause f) (Option (DockerServer f))) (w : h.World)
      → req.server_id ≢ ""
      → existing_server f h req.server_id n.world ≡ (found, w)
      → Reconciled n (resumed found (looked_up n w))
  unfolding resumed
  resumed-Reconciled n (err cause) w named looked = Reconciled.lookup_failed cause w named looked
  resumed-Reconciled n (ok none) w named looked =
      Reconciled.provisions _ (MayProvision.absent w named looked)
  resumed-Reconciled n (ok (some server)) w named looked =
      elim (Bool-cases (failed_create_runtime_status server.status)) [
        | inl failed ↦ resumed-failed n server w named looked failed
        | inr alive ↦ rw (alive, resumed) (Reconciled.answers server w named looked alive)
      ]

  -- A creation allocates, runs the hook or creates a container only where no ID was asked for, where the
  -- lookup finds no runtime of that ID, or where the one it finds has failed and the recovery, for which
  -- both identities have to be valid, has retired it. A runtime that has not failed is the answer, and
  -- every other call is an error; neither changes more than the lookup or the failed recovery did.
  pub create_fenced-Reconciled :
      (n : Node f h) → Reconciled n (create_fenced f h core req key effect n)
  unfolding create_fenced preflight resumed
  create_fenced-Reconciled n = elim (Bool-cases (req.server_id == "")) [
    | inl none_asked ↦
        let unnamed = (eq_iff req.server_id "").0 none_asked in
        rw (none_asked, create_fenced) (Reconciled.provisions n (MayProvision.unnamed unnamed))
    | inr asked ↦
        let named : req.server_id ≢ "" = ground (arith, asked, eq_iff req.server_id "") in
        let (found, w) = existing_server f h req.server_id n.world in
        let all = resumed-Reconciled n found w named refl in rw (asked, create_fenced) all
  ]
