-- ===== src/FleetExec/Once.antt =====
-- The exec-v2 handler: a command that was answered is not run again.
use Prim.Native.String.{◌++◌}
use bananagine.Prelude.{
  String, true, false, not, ◌||◌, string_eq, ◌==◌, Option, some, ◌≡◌, ◌≢◌, refl, arith, eq_iff,
  if◌then◌else◌, inl, inr, Bool-cases, Option-cases, ap, sym, ◌∙◌, subst,
}
use bananagine.Service.{Result, ok, err, Result-cases}
use bananagine.Text.Identity.{valid_fleet_identity, valid_fleet_effect_identity}
use bananagine.Creation.Host.{DockerError, is_docker_not_found}
use bananagine.FleetExec.Handler.{
  Receipt, ExecHost, Answer, failed, responded, Call, receipt_dir, receipt_path, load_receipt,
  loaded, checked, store_receipt, receipt_of, settle, execute, is_container, owned_answered, got,
  same_call, with_digest, handle,
}

-- What the handler relies on: a file that was written and renamed is read at its new path, a receipt
-- survives its encoding, and no response encodes to an empty text.
pub record IsDurable (h : ExecHost) : Type 0 where
  pub read-rename :
      (temporary path : String) (wire : h.Wire) (w : h.World)
      → (h.write temporary wire w).0 ≡ true
      → (h.rename temporary path (h.write temporary wire w).1).0 ≡ true
      → h.read path (h.rename temporary path (h.write temporary wire w).1).1 ≡ ok wire
  pub decode-encode :
      (receipt : Receipt) (wire : h.Wire)
      → h.encode_receipt receipt ≡ some wire
      → h.decode_receipt wire ≡ some receipt
  pub non_empty :
      (output response : String) → h.encode_response output ≡ some response → response ≢ ""

module _ (h : ExecHost) (d : IsDurable h) where
  load_receipt_reads :
      (path : String) (wire : h.Wire) (receipt : Receipt) (w : h.World)
      → h.read path w ≡ ok wire
      → h.decode_receipt wire ≡ some receipt
      → (receipt.response == "") ≡ false
      → load_receipt h path w ≡ ok (some receipt)
  unfolding load_receipt loaded checked
  load_receipt_reads path wire receipt w read decoded full =
      ap (loaded h) read ∙ (ap (checked h) decoded ∙ rw full refl)

  load_receipt-store_receipt :
      (path effect_id : String) (receipt : Receipt) (w : h.World)
      → receipt.response ≢ ""
      → (store_receipt h path effect_id receipt w).0 ≡ true
      → load_receipt h path (store_receipt h path effect_id receipt w).1 ≡ ok (some receipt)
  unfolding store_receipt
  load_receipt-store_receipt path effect_id receipt w full =
      elim (Option-cases (h.encode_receipt receipt)) [
        | inl unencoded ↦ rw (unencoded, store_receipt) (λ q. absurd cc)
        | inr (wire, encoded) ↦
            let temporary = path ++ "." ++ h.name_of effect_id ++ ".tmp" in
            let (made, w1) = h.mkdir_all receipt_dir w in
            let back = d.decode-encode receipt wire encoded in
            let non_empty : (receipt.response == "") ≡ false =
              ground (arith, eq_iff receipt.response "") in
            elim (Bool-cases made) [
              | inr unmade ↦ rw (encoded, unmade, store_receipt) (λ q. absurd cc)
              | inl there ↦ elim (Bool-cases (h.write temporary wire w1).0) [
                | inr unwritten ↦ rw (encoded, there, unwritten, store_receipt) (λ q. absurd cc)
                | inl written ↦
                    rw (encoded, there, written, store_receipt)
                      (λ q.
                        load_receipt_reads path wire receipt _
                          (d.read-rename temporary path wire w1 written q) back non_empty)
              ]
            ]
      ]

  -- The files hold a receipt of the call with the response.
  Kept : Call → String → String → h.World → Type 0
  Kept c sha response w =
      (receipt : Receipt) × (load_receipt h (receipt_path h c.idempotency_key) w
        ≡ ok (some receipt))
      × (same_call h receipt c sha ≡ true)
      × (receipt.response ≡ response)

  same_call-receipt_of :
      (c : Call) (sha response : String) → same_call h (receipt_of h c sha response) c sha ≡ true
  unfolding same_call receipt_of
  same_call-receipt_of c sha response = ground (
    arith,
    eq_iff c.idempotency_key c.idempotency_key,
    eq_iff c.effect_id c.effect_id,
    eq_iff c.request.server_id c.request.server_id,
    eq_iff c.request.node_id c.request.node_id,
    eq_iff c.container_id c.container_id,
    eq_iff sha sha,
  )

  docker_failed_fails :
      (e : DockerError) (message response : String)
      → (if is_docker_not_found e then failed 404 "server not found" else failed 500 message)
        ≢ responded response
  docker_failed_fails e message response = elim (Bool-cases (is_docker_not_found e)) [
    | inl absent ↦ rw absent (λ q. cc)
    | inr other ↦ rw other (λ q. cc)
  ]

  settle-Kept :
      (c : Call) (sha : String) (output : Result DockerError String) (w : h.World)
      (response : String)
      → (settle h c sha output w).0 ≡ responded response
      → Kept c sha response (settle h c sha output w).1
  unfolding settle Kept receipt_of
  settle-Kept c sha (err e) w response = λ q. absurd (docker_failed_fails e _ response q)
  settle-Kept c sha (ok output) w response = elim (Option-cases (h.encode_response output)) [
    | inl unencoded ↦ rw (unencoded, settle) (λ q. absurd cc)
    | inr (text, encoded) ↦
        let path = receipt_path h c.idempotency_key in
        let receipt = receipt_of h c sha text in
        elim (Bool-cases (store_receipt h path c.effect_id receipt w).0) [
          | inr lost ↦ rw (encoded, lost, settle) (λ q. absurd cc)
          | inl stored ↦
              rw (encoded, stored, settle)
                (λ q. (
                  receipt,
                  load_receipt-store_receipt path c.effect_id receipt w (full output text encoded)
                      stored,
                  same_call-receipt_of c sha text,
                  answered text q,
                ))
        ]
  ]
    where
      full :
          (output text : String)
          → h.encode_response output ≡ some text
          → (receipt_of h c sha text).response ≢ ""
      full output text encoded = d.non_empty output text encoded

      answered :
          (text : String)
          → responded text ≡ responded response
          → (receipt_of h c sha text).response ≡ response
      answered text q = cc

  owned_answered-Kept :
      (c : Call) (sha : String) (server : Option String)
      (owned : Result DockerError (Option String)) (w : h.World) (response : String)
      → (owned_answered h c sha server owned w).0 ≡ responded response
      → Kept c sha response (owned_answered h c sha server owned w).1
  unfolding owned_answered execute
  owned_answered-Kept c sha server (err e) w response =
      λ q. absurd (docker_failed_fails e _ response q)
  owned_answered-Kept c sha server (ok owned) w response =
      elim (Bool-cases
        (not (is_container h c.container_id server) || not (is_container h c.container_id owned))) [
          | inl differs ↦ rw (differs, owned_answered) (λ q. absurd cc)
          | inr same ↦
              let (output, w') = h.exec c.container_id c.request.cmd w in
              rw (same, owned_answered) (settle-Kept c sha output w' response)
        ]

  got-Kept :
      (c : Call) (sha : String) (server : Result DockerError (Option String)) (w : h.World)
      (response : String)
      → (got h c sha server w).0 ≡ responded response
      → Kept c sha response (got h c sha server w).1
  unfolding got
  got-Kept c sha (err e) w response = λ q. absurd (docker_failed_fails e _ response q)
  got-Kept c sha (ok server) w response =
      let (owned, w') = h.get_owned c.request.server_id w in
      owned_answered-Kept c sha server owned w' response

  with_digest-Kept :
      (c : Call) (sha : String) (w : h.World) (response : String)
      → (with_digest h c sha w).0 ≡ responded response
      → Kept c sha response (with_digest h c sha w).1
  unfolding with_digest Kept
  with_digest-Kept c sha w response =
      let (server, w') = h.get c.container_id w in
      elim (Result-cases (load_receipt h (receipt_path h c.idempotency_key) w)) [
        | inr (e, unreadable) ↦ rw (unreadable, with_digest) (λ q. absurd cc)
        | inl (found, read) ↦ elim (Option-cases found) [
          | inl fresh ↦ rw (read, fresh, with_digest) (got-Kept c sha server w' response)
          | inr (receipt, there) ↦ elim (Bool-cases (same_call h receipt c sha)) [
            | inr other ↦ rw (read, there, other, with_digest) (λ q. absurd cc)
            | inl same ↦
                rw (read, there, same, with_digest)
                  (λ q. (receipt, read ∙ ap (λ x. ok x) there, same, cc))
          ]
        ]
      ]

  with_digest_again :
      (c : Call) (sha : String) (w : h.World) (response : String)
      → Kept c sha response w
      → with_digest h c sha w ≡ (responded response, w)
  unfolding with_digest Kept
  with_digest_again c sha w response (receipt, read, same, equal) =
      rw (read, same, with_digest) (ap (λ r. (responded r, w)) equal)

  handle_digested :
      (c : Call) (sha : String) (w : h.World)
      → valid_fleet_identity c.container_id ≡ true
      → (not (valid_fleet_effect_identity c.idempotency_key)
          || not (valid_fleet_effect_identity c.effect_id))
        ≡ false
      → h.digest c.container_id c.effect_id c.request ≡ some sha
      → handle h c w ≡ with_digest h c sha w
  unfolding handle
  handle_digested c sha w sound good digested = rw (sound, good, digested, handle) refl

  handled_again :
      (c : Call) (sha : String) (w : h.World) (response : String)
      → valid_fleet_identity c.container_id ≡ true
      → (not (valid_fleet_effect_identity c.idempotency_key)
          || not (valid_fleet_effect_identity c.effect_id))
        ≡ false
      → h.digest c.container_id c.effect_id c.request ≡ some sha
      → (handle h c w).0 ≡ responded response
      → handle h c (handle h c w).1 ≡ (responded response, (handle h c w).1)
  handled_again c sha w response sound good digested q =
      let next = (handle h c w).1 in
      let kept : Kept c sha response next =
        subst (λ (x : Answer × h.World). x.0 ≡ responded response → Kept c sha response x.1)
          (sym (handle_digested c sha w sound good digested)) (with_digest-Kept c sha w response)
          q in
      handle_digested c sha next sound good digested ∙ with_digest_again c sha next response kept

  -- Where files and encodings are durable: once a call was answered with the output of its command, the
  -- same call is answered with the same bytes and changes nothing, so that the command is not run again.
  pub handle_again :
      (c : Call) (w : h.World) (response : String)
      → (handle h c w).0 ≡ responded response
      → handle h c (handle h c w).1 ≡ (responded response, (handle h c w).1)
  unfolding handle
  handle_again c w response = elim (Bool-cases (valid_fleet_identity c.container_id)) [
    | inr bad ↦ rw (bad, handle) (λ q. absurd cc)
    | inl sound ↦
        elim (Bool-cases (
          not (valid_fleet_effect_identity c.idempotency_key)
          || not (valid_fleet_effect_identity c.effect_id))) [
            | inl bad ↦ rw (sound, bad, handle) (λ q. absurd cc)
            | inr good ↦ elim (Option-cases (h.digest c.container_id c.effect_id c.request)) [
              | inl undigested ↦ rw (sound, good, undigested, handle) (λ q. absurd cc)
              | inr (sha, digested) ↦ λ q. handled_again c sha w response sound good digested q
            ]
          ]
  ]
