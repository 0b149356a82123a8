-- ===== src/GameWorker/State.antt =====
-- gameworker/state.go. A job is a pointer of the table in Go: what a call writes to it is written to
-- the table here. The workers of the host and the fingerprint of a request (SHA-256 of its JSON, in
-- hexadecimal, or none if it cannot be encoded) are parameters. The nil receiver is not modelled.
use Prim.Native.Nat.{Ordering}
use Prim.Native.String.{compare}
use bananagine.Prelude.{
  ℕ, String, pos, int_eq, not, ◌||◌, string_eq, ◌==◌, Option, none, some, List, [], ◌∷◌,
  if◌then◌else◌,
}
use bananagine.Map.{Map, get, put}
use bananagine.Map.Values.{map_values}
use bananagine.Text.{trim_space}
use bananagine.Text.Strings.{to_upper}
use bananagine.Service.{Result, ok, err, ServiceError, invalid, conflict, not_found, internal}
use bananagine.GameWorker.Contracts.{
  SubmitRequest, Job, Snapshot, PollResult, snapshot_version, state_pending, state_completed,
  state_failed, state_cancelled,
}

pub record OwnedJob : Type 0 where
  pub request : SubmitRequest
  pub fingerprint : String
  pub host_task_id : ℕ
  pub job : Job

pub record State : Type 0 where
  pub jobs : Map String OwnedJob

abbrev pub new_state : State
new_state = record { jobs = [] }

pub record Submitter (W : Type 0) : Type 0 where
  pub submit : SubmitRequest → W → Result String ℕ × W

pub record Poller (W : Type 0) : Type 0 where
  pub result : ℕ → W → Result String PollResult × W
  pub cancel : ℕ → W → Option String × W

-- append([]byte(nil), body...): a copy of an empty slice is nil.
unfoldable pub clone_body : Option (List ℕ) → Option (List ℕ)
clone_body none = none
clone_body (some []) = none
clone_body (some (b ∷ bs)) = some (b ∷ bs)

unfoldable pub clone_strings : Option (Map String String) → Option (Map String String)
clone_strings none = none
clone_strings (some values) = some (map_values (λ v. v) values)

unfoldable pub clone_job : Job → Job
clone_job job = record job { headers = clone_strings job.headers; body = clone_body job.body }

unfoldable pub normalized : SubmitRequest → SubmitRequest
normalized request = record request {
  idempotency_key = trim_space request.idempotency_key;
  method = to_upper (trim_space request.method);
  url = trim_space request.url;
}

unfoldable pub pending_job : String → Job
pending_job key = record {
  idempotency_key = key;
  state = state_pending;
  status = pos 0;
  headers = none;
  body = none;
  error = "";
}

abbrev pub Fingerprint : Type 0
Fingerprint = SubmitRequest → Option String

module _ (W : Type 0) where
  abbrev pub Reply : Type 0
  Reply = Result ServiceError Job × State × W

  -- What the host answers to a new submission.
  unfoldable pub enter : State → SubmitRequest → String → Result String ℕ → W → Reply
  enter s request print (err e) w = (err (internal e), s, w)
  enter s request print (ok task) w =
      let job = pending_job request.idempotency_key in
      let owned : OwnedJob = record {
        request = request;
        fingerprint = print;
        host_task_id = task;
        job = job;
      } in
      (ok (clone_job job), record { jobs = put s.jobs request.idempotency_key owned }, w)

  unfoldable pub after_print : State → SubmitRequest → Submitter W → Option String → W → Reply
  unfolding enter
  after_print s request submitter none w = (err (internal "encode worker request"), s, w)
  after_print s request submitter (some print) w =
      let (answer, w') = submitter.submit request w in
      elim (get s.jobs request.idempotency_key) [
        | some prior ↦
            if not (prior.fingerprint == print)
            then (err (conflict "idempotency_key was already used for different work"), s, w)
            else (ok (clone_job prior.job), s, w)
        | none ↦ enter s request print answer w'
      ]

  unfoldable pub submit : Fingerprint → State → SubmitRequest → Option (Submitter W) → W → Reply
  unfolding after_print normalized
  submit fingerprint s request none w = (err (internal "worker owner is unavailable"), s, w)
  submit fingerprint s request (some submitter) w =
      let r = normalized request in
      if r.idempotency_key == "" || r.method == "" || r.url == ""
      then (err (invalid "idempotency_key, method, and url are required"), s, w)
      else after_print s r submitter (fingerprint r) w

  unfoldable pub lookup : State → String → Result ServiceError OwnedJob
  lookup s key =
      if trim_space key == ""
      then err (invalid "idempotency_key is required")
      else (elim (get s.jobs (trim_space key)) [
        | none ↦ err (not_found "worker job not found")
        | some owned ↦ ok owned
      ])

  -- Writing to the job that the pointer of a key leads to.
  abbrev pub with_job : State → String → OwnedJob → Job → State
  with_job s key owned job = record {
    jobs = put s.jobs (trim_space key) (record owned { job = job });
  }

  -- The job after the host's answer.
  unfoldable pub finished : Job → PollResult → Job
  finished job result = record job {
    status = result.status;
    headers = clone_strings result.headers;
    body = clone_body result.body;
    error = result.error;
    state = if result.error == "" then state_completed else state_failed;
  }

  unfoldable pub after_poll : State → String → OwnedJob → Result String PollResult → W → Reply
  unfolding finished
  after_poll s key owned (err e) w = (err (internal e), s, w)
  after_poll s key owned (ok result) w =
      let job = finished owned.job result in
      if not result.done
      then (ok (clone_job owned.job), s, w)
      else (ok (clone_job job), with_job s key owned job, w)

  unfoldable pub poll : State → String → OwnedJob → Option (Poller W) → W → Reply
  unfolding after_poll
  poll s key owned none w = (err (internal "worker poller is unavailable"), s, w)
  poll s key owned (some poller) w =
      let (answer, w') = poller.result owned.host_task_id w in after_poll s key owned answer w'

  unfoldable pub status : State → String → Option (Poller W) → W → Reply
  unfolding poll lookup
  status s key poller w = elim (lookup s key) [
    | err e ↦ (err e, s, w)
    | ok owned ↦
        if not (owned.job.state == state_pending)
        then (ok (clone_job owned.job), s, w)
        else poll s key owned poller w
  ]

  unfoldable pub after_cancel : State → String → OwnedJob → Option String → W → Reply
  after_cancel s key owned (some e) w = (err (internal e), s, w)
  after_cancel s key owned none w =
      let job : Job = record (owned.job) { state = state_cancelled } in
      (ok (clone_job job), with_job s key owned job, w)

  unfoldable pub ask_cancel : State → String → OwnedJob → Option (Poller W) → W → Reply
  unfolding after_cancel
  ask_cancel s key owned none w = (err (internal "worker poller is unavailable"), s, w)
  ask_cancel s key owned (some poller) w =
      let (answer, w') = poller.cancel owned.host_task_id w in after_cancel s key owned answer w'

  unfoldable pub cancel : State → String → Option (Poller W) → W → Reply
  unfolding ask_cancel lookup
  cancel s key poller w = elim (lookup s key) [
    | err e ↦ (err e, s, w)
    | ok owned ↦
        if not (owned.job.state == state_pending)
        then (ok (clone_job owned.job), s, w)
        else ask_cancel s key owned poller w
  ]

-- sort.Strings, by insertion.
unfoldable pub insert_key : String → OwnedJob → Map String OwnedJob → Map String OwnedJob
insert_key key owned [] = (key, owned) ∷ []
insert_key key owned ((other, o) ∷ rest) = elim (compare key other) [
  | Ordering.lt ↦ (key, owned) ∷ (other, o) ∷ rest
  | Ordering.eq ↦ (key, owned) ∷ (other, o) ∷ rest
  | Ordering.gt ↦ (other, o) ∷ insert_key key owned rest
]

-- The settled jobs in the order of their keys.
unfoldable pub settled_jobs : Map String OwnedJob → Map String OwnedJob
unfolding insert_key
settled_jobs [] = []
settled_jobs ((key, owned) ∷ rest) =
    let more = settled_jobs rest in
    if not (owned.job.state == state_pending) then insert_key key owned more else more

unfoldable pub copies : Map String OwnedJob → List Job
copies [] = []
copies ((key, owned) ∷ rest) = clone_job owned.job ∷ copies rest

unfoldable pub export : State → Snapshot
unfolding settled_jobs copies
export s = record { version = snapshot_version; jobs = copies (settled_jobs s.jobs) }

-- The zero value of the fields that an import leaves out; the fingerprint is 32 zero bytes.
unfoldable pub imported : Job → OwnedJob
imported job = record {
  request = record {
    idempotency_key = "";
    method = "";
    url = "";
    headers = none;
    body = none;
    timeout_ms = 0;
  };
  fingerprint = "0000000000000000000000000000000000000000000000000000000000000000";
  host_task_id = 0;
  job = clone_job job;
}

-- The loop of `Import`; the jobs before one that is refused stay imported.
unfoldable pub import_jobs : State → List Job → Result ServiceError (Unit {0}) × State
unfolding imported
import_jobs s [] = (ok tt, s)
import_jobs s (job ∷ rest) =
    let key = trim_space job.idempotency_key in
    let job' : Job = record job { idempotency_key = key } in
    let more = import_jobs (record { jobs = put s.jobs key (imported job') }) rest in
    if key == "" || job.state == state_pending
    then (err (invalid "worker snapshot contains an invalid job"), s)
    else (elim (get s.jobs key) [
      | some _ ↦ (err (conflict "worker snapshot contains a duplicate job"), s)
      | none ↦ more
    ])

unfoldable pub import : State → Snapshot → Result ServiceError (Unit {0}) × State
unfolding import_jobs
import s snapshot =
    if not (snapshot.version == snapshot_version)
    then (err (invalid "unsupported worker snapshot version"), s)
    else import_jobs s snapshot.jobs
