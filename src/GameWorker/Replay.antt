-- ===== src/GameWorker/Replay.antt =====
-- gameworker/state.go, `Submit`: a request that was accepted is answered from the table.
use bananagine.Prelude.{
  ℕ, String, true, ◌||◌, string_eq, ◌==◌, none, some, ◌≡◌, ◌≢◌, refl, arith, eq_iff, inl, inr,
  Bool-cases, Option-cases, ap,
}
use bananagine.Map.{get, get-put_self}
use bananagine.Service.{Result, ok, err}
use bananagine.GameWorker.Contracts.{SubmitRequest, Job}
use bananagine.GameWorker.State.{
  State, OwnedJob, Submitter, Fingerprint, clone_job, normalized, enter, after_print, submit,
}

-- The table answers the request with the job.
Remembered : String → State → SubmitRequest → Job → Type 0
Remembered print s r job =
    (prior : OwnedJob) × (get s.jobs r.idempotency_key ≡ some prior)
    × (prior.fingerprint ≡ print)
    × (clone_job prior.job ≡ job)

module _ (W : Type 0) where
  enter-Remembered :
      (s : State) (r : SubmitRequest) (print : String) (answer : Result String ℕ) (w : W)
      (job : Job)
      → (enter W s r print answer w).0 ≡ ok job
      → Remembered print (enter W s r print answer w).1 r job
  unfolding enter Remembered
  enter-Remembered s r print (err e) w job h = absurd cc
  enter-Remembered s r print (ok task) w job h =
      (_, get-put_self s.jobs r.idempotency_key _, refl, cc)

  after_print-Remembered :
      (s : State) (r : SubmitRequest) (submitter : Submitter W) (print : String) (w : W) (job : Job)
      → (after_print W s r submitter (some print) w).0 ≡ ok job
      → Remembered print (after_print W s r submitter (some print) w).1 r job
  unfolding after_print Remembered
  after_print-Remembered s r submitter print w job =
      let (answer, w') = submitter.submit r w in
      elim (Option-cases (get s.jobs r.idempotency_key)) [
        | inl fresh ↦ rw (fresh, after_print) (enter-Remembered s r print answer w' job)
        | inr (prior, known) ↦ elim (Bool-cases (prior.fingerprint == print)) [
          | inl same ↦
              rw (known, same, after_print)
                (λ q. (prior, known, ground (arith, eq_iff prior.fingerprint print), cc))
          | inr other ↦ rw (known, other, after_print) (λ q. absurd cc)
        ]
      ]

  after_print_fails :
      (s : State) (r : SubmitRequest) (submitter : Submitter W) (w : W) (job : Job)
      → (after_print W s r submitter none w).0 ≢ ok job
  unfolding after_print
  after_print_fails s r submitter w job q = cc

  remembered :
      (s : State) (r : SubmitRequest) (submitter : Submitter W) (print : String) (w : W) (job : Job)
      → Remembered print s r job
      → after_print W s r submitter (some print) w ≡ (ok job, s, w)
  unfolding after_print Remembered
  remembered s r submitter print w job (prior, known, same, copied) =
      let hit : (prior.fingerprint == print) ≡ true =
        ground (arith, eq_iff prior.fingerprint print) in
      rw (known, hit, after_print) (ap (λ j. (ok j, s, w)) copied)

  -- A request that a submission accepted is answered again with the same job, whatever the worker
  -- and the world are by then: no state changes, and the worker is not called.
  pub submit_again :
      (fingerprint : Fingerprint) (s : State) (r : SubmitRequest) (first second : Submitter W)
      (w w' : W) (job : Job)
      → (submit W fingerprint s r (some first) w).0 ≡ ok job
      → submit W fingerprint (submit W fingerprint s r (some first) w).1 r (some second) w'
        ≡ (ok job, (submit W fingerprint s r (some first) w).1, w')
  unfolding submit
  submit_again fingerprint s r first second w w' job =
      let n = normalized r in
      elim (Bool-cases (n.idempotency_key == "" || n.method == "" || n.url == "")) [
        | inl bad ↦ rw (bad, submit) (λ q. absurd cc)
        | inr good ↦ elim (Option-cases (fingerprint n)) [
          | inl unencoded ↦
              rw (good, unencoded, submit) (λ q. absurd (after_print_fails s n first w job q))
          | inr (print, encoded) ↦
              rw (good, encoded, submit)
                (λ q.
                  remembered _ n second print w' job
                    (after_print-Remembered s n first print w job q))
        ]
      ]
