-- ===== src/GameWorker/Tests.antt =====
-- Runs of gameworker/state.go at concrete inputs, with workers that take every job and answer none.
use bananagine.Prelude.{
  ℕ, ◌+◌, string_eq, pos, int_eq, ◌≡◌, ◌≢◌, refl, arith, eq_iff, none, some, [], ◌∷◌,
}
use bananagine.Map.{get}
use bananagine.Text.{trim_space}
use bananagine.Text.Strings.{to_upper}
use bananagine.Service.{ok, err}
use bananagine.GameWorker.Contracts.{SubmitRequest, Job, state_pending}
use bananagine.GameWorker.State.{
  State, new_state, Submitter, Poller, Fingerprint, pending_job, clone_job, clone_strings,
  clone_body, imported, submit,
}
use bananagine.GameWorker.Replay.{submit_again}
use bananagine.GameWorker.Settled.{polls, step, get-step}

abbrev fetch : SubmitRequest
fetch = record {
  idempotency_key = " k-1 ";
  method = "get";
  url = "https://example.org/jar";
  headers = none;
  body = none;
  timeout_ms = 1000;
}

-- Not collision-free, as an example.
abbrev url_of : Fingerprint
url_of r = some r.url

abbrev workers : Submitter ℕ
workers = record { submit = λ r w. (ok w, w + 1) }

abbrev silent : Poller ℕ
silent = record { result = λ id w. (err "lost", w); cancel = λ id w. (none, w) }

accepts : (submit ℕ url_of new_state fetch (some workers) 7).0 ≡ ok (pending_job "k-1")
unfolding submit get clone_job trim_space to_upper pending_job clone_strings clone_body
accepts = refl

submit_again_example :
    submit ℕ url_of (submit ℕ url_of new_state fetch (some workers) 7).1 fetch (some workers) 8
    ≡ (ok (pending_job "k-1"), (submit ℕ url_of new_state fetch (some workers) 7).1, 8)
submit_again_example =
    submit_again ℕ url_of new_state fetch workers workers 7 8 (pending_job "k-1") accepts

abbrev failed : Job
failed = record {
  idempotency_key = "k-2";
  state = "failed";
  status = pos 502;
  headers = none;
  body = none;
  error = "bad gateway";
}

abbrev restored : State
restored = record { jobs = ("k-2", imported failed) ∷ [] }

failed-settled : failed.state ≢ state_pending
failed-settled = ground (arith, eq_iff failed.state state_pending)

get-step_example :
    get (step ℕ restored 7 (polls "k-2" (some silent))).jobs "k-2" ≡ some (imported failed)
unfolding get imported clone_job
get-step_example =
    get-step ℕ restored 7 (polls "k-2" (some silent)) "k-2" (imported failed) refl failed-settled
