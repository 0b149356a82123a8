-- ===== src/GameWorker/Settled.antt =====
-- gameworker/state.go: a job that is no longer pending does not change.
use bananagine.Prelude.{
  ℕ, pos, int_eq, String, ◌||◌, string_eq, ◌==◌, Option, none, some, List, [], ◌∷◌, ◌≡◌, ◌≢◌, arith,
  eq_iff, inl, inr, Bool-cases, Option-cases, subst,
}
use bananagine.Map.{get, put, get-put}
use bananagine.Text.{trim_space}
use bananagine.Service.{Result, ok, err, Result-cases}
use bananagine.GameWorker.Contracts.{SubmitRequest, Job, PollResult, Snapshot, state_pending}
use bananagine.GameWorker.State.{
  State, OwnedJob, Submitter, Poller, Fingerprint, normalized, enter, after_print, submit, lookup,
  with_job, after_poll, poll, status, after_cancel, ask_cancel, cancel, imported, import_jobs,
  import,
}

-- Every settled job of the first state stands unchanged in the second.
abbrev KeepsSettled : State → State → Type 0
KeepsSettled s s' =
    (key : String) (owned : OwnedJob)
    → get s.jobs key ≡ some owned
    → owned.job.state ≢ state_pending
    → get s'.jobs key ≡ some owned

-- Adding a job under a new key keeps the others.
put-KeepsSettled :
    (s : State) (key : String) (owned : OwnedJob)
    → get s.jobs key ≡ none
    → KeepsSettled s (record { jobs = put s.jobs key owned })
put-KeepsSettled s key owned fresh k o there settled =
    ground (arith, get-put s.jobs key k owned, eq_iff key k)

module _ (W : Type 0) where
  pub data Call : Type 0 where
    submits : Fingerprint → SubmitRequest → Option (Submitter W) → Call
    polls : String → Option (Poller W) → Call
    cancels : String → Option (Poller W) → Call
    imports : Snapshot → Call

  unfoldable pub step : State → W → Call → State
  step s w (submits fingerprint r submitter) = (submit W fingerprint s r submitter w).1
  step s w (polls key poller) = (status W s key poller w).1
  step s w (cancels key poller) = (cancel W s key poller w).1
  step s w (imports snapshot) = (import s snapshot).1

  enter-KeepsSettled :
      (s : State) (r : SubmitRequest) (print : String) (answer : Result String ℕ) (w : W)
      → get s.jobs r.idempotency_key ≡ none
      → KeepsSettled s (enter W s r print answer w).1
  unfolding enter
  enter-KeepsSettled s r print (err e) w fresh = λ k o there settled. there
  enter-KeepsSettled s r print (ok task) w fresh = put-KeepsSettled s r.idempotency_key _ fresh

  after_print-KeepsSettled :
      (s : State) (r : SubmitRequest) (submitter : Submitter W) (print : Option String) (w : W)
      → KeepsSettled s (after_print W s r submitter print w).1
  unfolding after_print
  after_print-KeepsSettled s r submitter none w = λ k o there settled. there
  after_print-KeepsSettled s r submitter (some print) w =
      elim (Option-cases (get s.jobs r.idempotency_key)) [
        | inl fresh ↦ rw (fresh, after_print) (enter-KeepsSettled s r print _ _ fresh)
        | inr (prior, known) ↦ elim (Bool-cases (prior.fingerprint == print)) [
          | inl same ↦ rw (known, same, after_print) (λ k o there settled. there)
          | inr other ↦ rw (known, other, after_print) (λ k o there settled. there)
        ]
      ]

  submit-KeepsSettled :
      (fingerprint : Fingerprint) (s : State) (r : SubmitRequest) (submitter : Option (Submitter W))
      (w : W)
      → KeepsSettled s (submit W fingerprint s r submitter w).1
  unfolding submit
  submit-KeepsSettled fingerprint s r none w = λ k o there settled. there
  submit-KeepsSettled fingerprint s r (some submitter) w =
      let n = normalized r in
      elim (Bool-cases (n.idempotency_key == "" || n.method == "" || n.url == "")) [
        | inl bad ↦ rw (bad, submit) (λ k o there settled. there)
        | inr good ↦ rw (good, submit) (after_print-KeepsSettled s n submitter (fingerprint n) w)
      ]

  -- Writing to a pending job keeps the settled ones.
  with_job-KeepsSettled :
      (s : State) (key : String) (owned : OwnedJob) (job : Job)
      → get s.jobs (trim_space key) ≡ some owned
      → owned.job.state ≡ state_pending
      → KeepsSettled s (with_job W s key owned job)
  with_job-KeepsSettled s key owned job there pending k o known settled =
      elim (Bool-cases (trim_space key == k)) [
        | inl hit ↦
            let e : trim_space key ≡ k = ground (arith, eq_iff (trim_space key) k) in
            let there' : get s.jobs k ≡ some owned =
              subst (λ j. get s.jobs j ≡ some owned) e there in
            let same : owned ≡ o = cc in
            absurd (settled (subst (λ (x : OwnedJob). x.job.state ≡ state_pending) same pending))
        | inr miss ↦ ground (arith, get-put s.jobs (trim_space key) k (record owned { job = job }))
      ]

  after_poll-KeepsSettled :
      (s : State) (key : String) (owned : OwnedJob) (answer : Result String PollResult) (w : W)
      → get s.jobs (trim_space key) ≡ some owned
      → owned.job.state ≡ state_pending
      → KeepsSettled s (after_poll W s key owned answer w).1
  unfolding after_poll
  after_poll-KeepsSettled s key owned (err e) w there pending = λ k o known settled. known
  after_poll-KeepsSettled s key owned (ok result) w there pending = elim (Bool-cases result.done) [
    | inl done ↦ rw (done, after_poll) (with_job-KeepsSettled s key owned _ there pending)
    | inr running ↦ rw (running, after_poll) (λ k o known settled. known)
  ]

  poll-KeepsSettled :
      (s : State) (key : String) (owned : OwnedJob) (poller : Option (Poller W)) (w : W)
      → get s.jobs (trim_space key) ≡ some owned
      → owned.job.state ≡ state_pending
      → KeepsSettled s (poll W s key owned poller w).1
  unfolding poll
  poll-KeepsSettled s key owned none w there pending = λ k o known settled. known
  poll-KeepsSettled s key owned (some poller) w there pending =
      let (answer, w') = poller.result owned.host_task_id w in
      after_poll-KeepsSettled s key owned answer w' there pending

  after_cancel-KeepsSettled :
      (s : State) (key : String) (owned : OwnedJob) (answer : Option String) (w : W)
      → get s.jobs (trim_space key) ≡ some owned
      → owned.job.state ≡ state_pending
      → KeepsSettled s (after_cancel W s key owned answer w).1
  unfolding after_cancel
  after_cancel-KeepsSettled s key owned (some e) w there pending = λ k o known settled. known
  after_cancel-KeepsSettled s key owned none w there pending =
      with_job-KeepsSettled s key owned _ there pending

  ask_cancel-KeepsSettled :
      (s : State) (key : String) (owned : OwnedJob) (poller : Option (Poller W)) (w : W)
      → get s.jobs (trim_space key) ≡ some owned
      → owned.job.state ≡ state_pending
      → KeepsSettled s (ask_cancel W s key owned poller w).1
  unfolding ask_cancel
  ask_cancel-KeepsSettled s key owned none w there pending = λ k o known settled. known
  ask_cancel-KeepsSettled s key owned (some poller) w there pending =
      let (answer, w') = poller.cancel owned.host_task_id w in
      after_cancel-KeepsSettled s key owned answer w' there pending

  lookup-stored :
      (s : State) (key : String) (owned : OwnedJob)
      → lookup W s key ≡ ok owned
      → get s.jobs (trim_space key) ≡ some owned
  unfolding lookup
  lookup-stored s key owned h = elim (Bool-cases (trim_space key == "")) [
    | inl empty ↦ absurd (ground arith)
    | inr named ↦ elim (Option-cases (get s.jobs (trim_space key))) [
      | inl missing ↦ absurd (ground arith)
      | inr (o, there) ↦ ground arith
    ]
  ]

  status-KeepsSettled :
      (s : State) (key : String) (poller : Option (Poller W)) (w : W)
      → KeepsSettled s (status W s key poller w).1
  unfolding status
  status-KeepsSettled s key poller w = elim (Result-cases (lookup W s key)) [
    | inr (e, failed) ↦ rw (failed, status) (λ k o known settled. known)
    | inl (owned, found) ↦ elim (Bool-cases (owned.job.state == state_pending)) [
      | inl pending ↦
          rw (found, pending, status)
            (poll-KeepsSettled s key owned poller w (lookup-stored s key owned found)
              (ground (arith, eq_iff owned.job.state state_pending)))
      | inr done ↦ rw (found, done, status) (λ k o known settled. known)
    ]
  ]

  cancel-KeepsSettled :
      (s : State) (key : String) (poller : Option (Poller W)) (w : W)
      → KeepsSettled s (cancel W s key poller w).1
  unfolding cancel
  cancel-KeepsSettled s key poller w = elim (Result-cases (lookup W s key)) [
    | inr (e, failed) ↦ rw (failed, cancel) (λ k o known settled. known)
    | inl (owned, found) ↦ elim (Bool-cases (owned.job.state == state_pending)) [
      | inl pending ↦
          rw (found, pending, cancel)
            (ask_cancel-KeepsSettled s key owned poller w (lookup-stored s key owned found)
              (ground (arith, eq_iff owned.job.state state_pending)))
      | inr done ↦ rw (found, done, cancel) (λ k o known settled. known)
    ]
  ]

  import_jobs-KeepsSettled : (s : State) (jobs : List Job) → KeepsSettled s (import_jobs s jobs).1
  unfolding import_jobs
  import_jobs-KeepsSettled s [] = λ k o known settled. known
  import_jobs-KeepsSettled s (job ∷ rest) =
      let key = trim_space job.idempotency_key in
      elim (Bool-cases (key == "" || job.state == state_pending)) [
        | inl bad ↦ rw (bad, import_jobs) (λ k o known settled. known)
        | inr good ↦ elim (Option-cases (get s.jobs key)) [
          | inr (prior, there) ↦ rw (good, there, import_jobs) (λ k o known settled. known)
          | inl fresh ↦
              rw (good, fresh, import_jobs)
                (λ k o known settled.
                  import_jobs-KeepsSettled
                    (record {
                      jobs = put s.jobs key (imported (record job { idempotency_key = key }));
                    })
                    rest k o (put-KeepsSettled s key _ fresh k o known settled) settled)
        ]
      ]

  import-KeepsSettled : (s : State) (snapshot : Snapshot) → KeepsSettled s (import s snapshot).1
  unfolding import
  import-KeepsSettled s snapshot = elim (Bool-cases (snapshot.version == pos 1)) [
    | inl same ↦ rw (same, import) (import_jobs-KeepsSettled s snapshot.jobs)
    | inr other ↦ rw (other, import) (λ k o known settled. known)
  ]

  step-KeepsSettled : (s : State) (w : W) (c : Call) → KeepsSettled s (step s w c)
  unfolding step
  step-KeepsSettled s w (submits fingerprint r submitter) =
      submit-KeepsSettled fingerprint s r submitter w
  step-KeepsSettled s w (polls key poller) = status-KeepsSettled s key poller w
  step-KeepsSettled s w (cancels key poller) = cancel-KeepsSettled s key poller w
  step-KeepsSettled s w (imports snapshot) = import-KeepsSettled s snapshot

  -- No call changes or removes a job that is completed, failed or cancelled: submissions, polls,
  -- cancellations and imports, with whatever the host's workers answer.
  pub get-step :
      (s : State) (w : W) (c : Call) (key : String) (owned : OwnedJob)
      → get s.jobs key ≡ some owned
      → owned.job.state ≢ state_pending
      → get (step s w c).jobs key ≡ some owned
  get-step s w c = step-KeepsSettled s w c
