-- ===== src/Creation/Recreate/Receipts.antt =====
-- pulp-cell/recreate_core.go: the receipts that a recreation leaves for its repetition.
use Prim.Native.String.{len}
use bananagine.Prelude.{
  String, true, not, ◌||◌, string_eq, nat_eq, int_eq, ◌==◌, none, some, ◌≡◌, ◌≢◌, refl, arith,
  eq_iff, inl, inr, Bool-cases, Option-cases, ap, sym, ◌∙◌, some_injective,
}
use bananagine.Map.{Map, get, get-put_self}
use bananagine.Text.Strings.{to_lower}
use bananagine.Service.{Result, ok, err, Result-cases, ok_injective}
use bananagine.Allocation.Capacity.{Float64}
use bananagine.Orchestration.{RecreateServerRequestV1, RecreateServerReceiptV1, Server}
use bananagine.Creation.Host.{Host, is_docker_not_found}
use bananagine.Creation.Core.{Node, CreationCore, CreationResult, CreationError, create}
use bananagine.Creation.Recreate.{
  Replay, Recreator, RecreateError, Digest, immutable_digest, identity_defect, validate, refusal,
  finish, retire_old, after_create, recreate,
}

module _ (f : Float64) (h : Host f) where
  validate-ok :
      (digest : Digest f h) (old spec : String) (r : RecreateServerRequestV1 f)
      → validate f h digest old r ≡ ok spec
      → immutable_digest f h digest r ≡ some spec
  unfolding validate
  validate-ok digest old spec r = elim (Option-cases (identity_defect f h old r)) [
    | inr (e, bad) ↦ rw (bad, validate) (λ q. absurd cc)
    | inl fine ↦ elim (Option-cases (immutable_digest f h digest r)) [
      | inl failed ↦ rw (fine, failed, validate) (λ q. absurd cc)
      | inr (made, there) ↦
          elim (Bool-cases (
            not (len r.immutable_spec_sha256 == 64)
            || not (to_lower r.immutable_spec_sha256 == to_lower made))) [
              | inl other ↦ rw (fine, there, other, validate) (λ q. absurd cc)
              | inr same ↦ rw (fine, there, same, validate) (λ q. ap some (ok_injective q))
            ]
    ]
  ]

  -- What a call that returns a receipt leaves behind: the receipt under its key, with its digest.
  Recorded : String → RecreateServerRequestV1 f → RecreateServerReceiptV1 f → Recreator f h → Type 0
  Recorded spec r receipt s =
      (replay : Replay f h) × (get s.replays r.idempotency_key ≡ some replay)
      × (replay.receipt ≡ receipt)
      × (replay.spec_digest ≡ spec)

  finish-Recorded :
      (spec old : String) (r : RecreateServerRequestV1 f) (server : Server f)
      (replays : Map String (Replay f h)) (n : Node f h) (receipt : RecreateServerReceiptV1 f)
      → (finish f h spec old r server replays n).0 ≡ ok receipt
      → Recorded spec r receipt (finish f h spec old r server replays n).1
  unfolding finish Recorded
  finish-Recorded spec old r server replays n receipt e =
      (_, get-put_self replays r.idempotency_key _, cc, refl)

  retire_old-Recorded :
      (spec old : String) (r : RecreateServerRequestV1 f) (server : Server f)
      (replays : Map String (Replay f h)) (n : Node f h) (receipt : RecreateServerReceiptV1 f)
      → (retire_old f h spec old r server replays n).0 ≡ ok receipt
      → Recorded spec r receipt (retire_old f h spec old r server replays n).1
  unfolding retire_old
  retire_old-Recorded spec old r server replays n receipt =
      let done =
        finish-Recorded spec old r server replays (record n { world = (h.destroy old n.world).1 })
          receipt in
      elim (Option-cases (h.destroy old n.world).0) [
        | inl gone ↦ rw (gone, retire_old) done
        | inr (e, failed) ↦ elim (Bool-cases (is_docker_not_found e)) [
          | inl absent ↦ rw (failed, absent, retire_old) done
          | inr other ↦ rw (failed, other, retire_old) (λ q. absurd cc)
        ]
      ]

  after_create-Recorded :
      (spec old : String) (r : RecreateServerRequestV1 f) (replays : Map String (Replay f h))
      (created : Result (CreationError f h) (CreationResult f h)) (n : Node f h)
      (receipt : RecreateServerReceiptV1 f)
      → (after_create f h spec old r replays created n).0 ≡ ok receipt
      → Recorded spec r receipt (after_create f h spec old r replays created n).1
  unfolding after_create
  after_create-Recorded spec old r replays (err e) n receipt q = absurd cc
  after_create-Recorded spec old r replays (ok created) n receipt q =
      retire_old-Recorded spec old r created.server replays n receipt q

  recreate-Recorded :
      (digest : Digest f h) (core : CreationCore f h) (s : Recreator f h) (old : String)
      (r : RecreateServerRequestV1 f) (receipt : RecreateServerReceiptV1 f)
      → (recreate f h digest core s old r).0 ≡ ok receipt
      → (spec : String) × (immutable_digest f h digest r ≡ some spec)
        × Recorded spec r receipt (recreate f h digest core s old r).1
  unfolding recreate Recorded
  recreate-Recorded digest core s old r receipt =
      let (created, n) = create f h core r.replacement s.node in
      elim (Result-cases (validate f h digest old r)) [
        | inr (e, refused) ↦ rw (refused, recreate) (λ q. absurd cc)
        | inl (spec, allowed) ↦
            let made = validate-ok digest old spec r allowed in
            elim (Option-cases (get s.replays r.idempotency_key)) [
              | inl fresh ↦
                  rw (allowed, fresh, recreate)
                    (λ q.
                      (spec, made, after_create-Recorded spec old r s.replays created n receipt q))
              | inr (replay, known) ↦ elim (Bool-cases (replay.spec_digest == spec)) [
                | inl same ↦
                    rw (allowed, known, same, recreate)
                      (λ q. (
                        spec,
                        made,
                        (replay, known, cc, ground (arith, eq_iff replay.spec_digest spec)),
                      ))
                | inr other ↦ rw (allowed, known, other, recreate) (λ q. absurd cc)
              ]
            ]
      ]

  replayed :
      (digest : Digest f h) (core : CreationCore f h) (s : Recreator f h) (old spec : String)
      (r : RecreateServerRequestV1 f) (receipt : RecreateServerReceiptV1 f)
      → validate f h digest old r ≡ ok spec
      → Recorded spec r receipt s
      → recreate f h digest core s old r ≡ (ok receipt, s)
  unfolding recreate Recorded
  replayed digest core s old spec r receipt allowed (replay, known, returned, same) =
      let hit : (replay.spec_digest == spec) ≡ true =
        ground (arith, eq_iff replay.spec_digest spec) in
      rw (allowed, known, hit, recreate) (ap (λ x. (ok x, s)) returned)

  refusal-none :
      (digest : Digest f h) (old spec : String) (r : RecreateServerRequestV1 f)
      → refusal f h digest old r ≡ none
      → immutable_digest f h digest r ≡ some spec
      → validate f h digest old r ≡ ok spec
  unfolding refusal
  refusal-none digest old spec r allowed made = elim (Result-cases (validate f h digest old r)) [
    | inr (e, refused) ↦ absurd (refuses e refused allowed)
    | inl (other, passed) ↦
        let same : other ≡ spec =
          some_injective (sym (validate-ok digest old other r passed) ∙ made) in
        passed ∙ ap (λ t. ok t) same
  ]
    where
      refuses :
          (e : RecreateError f h)
          → validate f h digest old r ≡ err e
          → refusal f h digest old r ≢ none
      refuses e refused = rw (refused, refusal) (λ q. absurd cc)

  -- Once a request has returned a receipt, the same request returns it again and changes nothing,
  -- also for another old container that passes the checks: that container is not retired.
  pub recreate_again :
      (digest : Digest f h) (core : CreationCore f h) (s : Recreator f h) (old other : String)
      (r : RecreateServerRequestV1 f) (receipt : RecreateServerReceiptV1 f)
      → (recreate f h digest core s old r).0 ≡ ok receipt
      → refusal f h digest other r ≡ none
      → recreate f h digest core (recreate f h digest core s old r).1 other r
        ≡ (ok receipt, (recreate f h digest core s old r).1)
  recreate_again digest core s old other r receipt done allowed =
      let (spec, made, recorded) = recreate-Recorded digest core s old r receipt done in
      replayed digest core _ other spec r receipt (refusal-none digest other spec r allowed made)
        recorded
