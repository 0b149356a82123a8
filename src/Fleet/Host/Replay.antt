-- ===== src/Fleet/Host/Replay.antt =====
-- What a stored receipt answers: the stages that the handlers share give the same answer again.
use Prim.Native.String.{◌++◌}
use mathlib.Core.Path.{fun_ext}
use bananagine.Prelude.{
  String, true, false, not, ◌||◌, string_eq, ◌==◌, Option, none, some, ◌≡◌, ◌≢◌, refl, arith,
  eq_iff, inl, inr, Bool-cases, Option-cases, ap, ◌∙◌, ◌⊎◌, subst, sym,
}
use bananagine.Service.{Result, ok, err, Result-cases}
use bananagine.Text.Identity.{valid_fleet_identity, valid_fleet_effect_identity}
use bananagine.Creation.Host.{DockerError, is_docker_not_found}
use bananagine.Fleet.Host.{
  Receipt, Response, FleetHost, Answer, failed, responded, Operation, receipt_dir, receipt_path,
  load_receipt, loaded, checked, store_receipt, receipt_of, same_operation, finish, replay_or,
  admitted, keyed, lookup_failed,
}

-- What the handlers rely on: a file that was written and renamed is read at its new path, a receipt
-- survives its encoding, and no response encodes to an empty text.
pub record IsDurable (h : FleetHost) : Type 0 where
  pub read-rename :
      (temporary path : String) (wire : h.Wire) (w : h.World)
      → (h.write temporary wire w).0 ≡ true
      → (h.rename temporary path (h.write temporary wire w).1).0 ≡ true
      → h.read path (h.rename temporary path (h.write temporary wire w).1).1 ≡ ok wire
  pub decode-encode :
      (receipt : Receipt) (wire : h.Wire)
      → h.encode_receipt receipt ≡ some wire
      → h.decode_receipt wire ≡ some receipt
  pub non_empty :
      (response : Response) (wire : String) → h.encode_response response ≡ some wire → wire ≢ ""

pub lookup_failed_fails :
    (e : DockerError) (message response : String) → lookup_failed e message ≢ responded response
unfolding lookup_failed
lookup_failed_fails e message response = elim (Bool-cases (is_docker_not_found e)) [
  | inl absent ↦ rw (absent, lookup_failed) (λ q. cc)
  | inr other ↦ rw (other, lookup_failed) (λ q. cc)
]

same_operation-receipt_of :
    (o : Operation) (response : String) → same_operation (receipt_of o response) o ≡ true
unfolding same_operation receipt_of
same_operation-receipt_of o response = ground (
  arith,
  eq_iff o.idempotency_key o.idempotency_key,
  eq_iff o.effect_id o.effect_id,
  eq_iff o.action o.action,
  eq_iff o.container_id o.container_id,
  eq_iff o.request_sha256 o.request_sha256,
)

module _ (h : FleetHost) where
  -- The files hold a receipt of the operation with the response.
  pub record Kept (o : Operation) (response : String) (w : h.World) : Type 0 where
    pub receipt : Receipt
    pub stored : load_receipt h (receipt_path h o.idempotency_key) w ≡ ok (some receipt)
    pub same : same_operation receipt o ≡ true
    pub equal : receipt.response ≡ response

  -- Work whose success leaves its receipt behind.
  abbrev pub Keeps : (Operation → h.World → Answer × h.World) → Type 0
  Keeps work =
      (o : Operation) (w : h.World) (response : String)
      → (work o w).0 ≡ responded response
      → Kept o response (work o w).1

  -- A stage that answers a request that it has answered in the same way, without a change.
  abbrev pub IsReplayed : (h.World → Answer × h.World) → Type 0
  IsReplayed run =
      (w : h.World) (response : String)
      → (run w).0 ≡ responded response
      → run (run w).1 ≡ (responded response, (run w).1)

module _ (h : FleetHost) (d : IsDurable h) where
  load_receipt_reads :
      (path : String) (wire : h.Wire) (receipt : Receipt) (w : h.World)
      → h.read path w ≡ ok wire
      → h.decode_receipt wire ≡ some receipt
      → (receipt.response == "") ≡ false
      → load_receipt h path w ≡ ok (some receipt)
  unfolding load_receipt loaded checked
  load_receipt_reads path wire receipt w read decoded full =
      ap (loaded h) read ∙ (ap (checked h) decoded ∙ rw full refl)

  load_receipt-store_receipt :
      (path effect_id : String) (receipt : Receipt) (w : h.World)
      → receipt.response ≢ ""
      → (store_receipt h path effect_id receipt w).0 ≡ true
      → load_receipt h path (store_receipt h path effect_id receipt w).1 ≡ ok (some receipt)
  unfolding store_receipt
  load_receipt-store_receipt path effect_id receipt w full =
      elim (Option-cases (h.encode_receipt receipt)) [
        | inl unencoded ↦ rw (unencoded, store_receipt) (λ q. absurd cc)
        | inr (wire, encoded) ↦
            let temporary = path ++ "." ++ h.name_of effect_id ++ ".tmp" in
            let (made, w1) = h.mkdir_all receipt_dir w in
            let back = d.decode-encode receipt wire encoded in
            let non_empty : (receipt.response == "") ≡ false =
              ground (arith, eq_iff receipt.response "") in
            elim (Bool-cases made) [
              | inr unmade ↦ rw (encoded, unmade, store_receipt) (λ q. absurd cc)
              | inl there ↦ elim (Bool-cases (h.write temporary wire w1).0) [
                | inr unwritten ↦ rw (encoded, there, unwritten, store_receipt) (λ q. absurd cc)
                | inl written ↦
                    rw (encoded, there, written, store_receipt)
                      (λ q.
                        load_receipt_reads path wire receipt _
                          (d.read-rename temporary path wire w1 written q) back non_empty)
              ]
            ]
      ]

  -- The end of a handler keeps a receipt of its answer.
  pub finish-Kept :
      (o : Operation) (unencoded : String) (r : Response) (w : h.World) (response : String)
      → (finish h o unencoded r w).0 ≡ responded response
      → Kept h o response (finish h o unencoded r w).1
  unfolding finish receipt_of
  finish-Kept o unencoded r w response = elim (Option-cases (h.encode_response r)) [
    | inl not_json ↦ rw (not_json, finish) (λ q. absurd cc)
    | inr (wire, encoded) ↦
        let path = receipt_path h o.idempotency_key in
        let receipt = receipt_of o wire in
        elim (Bool-cases (store_receipt h path o.effect_id receipt w).0) [
          | inr lost ↦ rw (encoded, lost, finish) (λ q. absurd cc)
          | inl stored ↦
              rw (encoded, stored, finish)
                (λ q. record {
                  receipt = receipt;
                  stored =
                      load_receipt-store_receipt path o.effect_id receipt w
                        (d.non_empty r wire encoded) stored;
                  same = same_operation-receipt_of o wire;
                  equal = answered wire q;
                })
        ]
  ]
    where
      answered : (wire : String) → responded wire ≡ responded response → wire ≡ response
      answered wire q = cc

module _ (h : FleetHost) where
  replay_or-Kept :
      (o : Operation) (mismatch : String) (work : Operation → h.World → Answer × h.World)
      (w : h.World) (response : String)
      → Keeps h work
      → (replay_or h o mismatch (work o) w).0 ≡ responded response
      → Kept h o response (replay_or h o mismatch (work o) w).1
  unfolding replay_or
  replay_or-Kept o mismatch work w response keeps =
      elim (Result-cases (load_receipt h (receipt_path h o.idempotency_key) w)) [
        | inr (e, unreadable) ↦ rw (unreadable, replay_or) (λ q. absurd cc)
        | inl (found, read) ↦ elim (Option-cases found) [
          | inl fresh ↦ rw (read, fresh, replay_or) (keeps o w response)
          | inr (receipt, there) ↦ elim (Bool-cases (same_operation receipt o)) [
            | inr other ↦ rw (read, there, other, replay_or) (λ q. absurd cc)
            | inl same ↦
                rw (read, there, same, replay_or)
                  (λ q. record {
                    receipt = receipt;
                    stored = read ∙ ap (λ x. ok x) there;
                    same = same;
                    equal = cc;
                  })
          ]
        ]
      ]

  replay_or_again :
      (o : Operation) (mismatch : String) (work : h.World → Answer × h.World) (w : h.World)
      (response : String)
      → Kept h o response w
      → replay_or h o mismatch work w ≡ (responded response, w)
  unfolding replay_or
  replay_or_again o mismatch work w response k =
      rw (k.stored, k.same, replay_or) (ap (λ r. (responded r, w)) k.equal)

  pub keyed-IsReplayed :
      (marshalled : Option String) (invalid domain : String) (operation : String → Operation)
      (mismatch : String) (work : Operation → h.World → Answer × h.World)
      → Keeps h work
      → IsReplayed h (keyed h marshalled invalid domain operation mismatch work)
  unfolding keyed
  keyed-IsReplayed none invalid domain operation mismatch work keeps w response q = absurd cc
  keyed-IsReplayed (some wire) invalid domain operation mismatch work keeps w response q =
      let o = operation (h.sha256 (domain ++ wire)) in
      replay_or_again o mismatch (work o) _ response
        (replay_or-Kept o mismatch work w response keeps q)

  -- The checks let no answer through but the run's, and let the run through on every world or none.
  pub admitted-cases :
      {R : Type 0} (container_id key effect_id : String) (decoded : Option (Result String R))
      (run : R → h.World → Answer × h.World)
      → ((w : h.World) (response : String)
          → (admitted h container_id key effect_id decoded run w).0 ≢ responded response)
        ⊎ ((r : R) × (decoded ≡ some (ok r))
            × ((w : h.World) → admitted h container_id key effect_id decoded run w ≡ run r w))
  unfolding admitted
  admitted-cases container_id key effect_id decoded run =
      elim (Bool-cases (valid_fleet_identity container_id)) [
        | inr bad ↦ inl (λ w response. rw (bad, admitted) (λ q. cc))
        | inl sound ↦ elim (Option-cases decoded) [
          | inl panics ↦ inl (λ w response. rw (sound, panics, admitted) (λ q. cc))
          | inr (body, bound) ↦ elim (Result-cases body) [
            | inr (message, bad) ↦ inl (λ w response. rw (sound, bound, bad, admitted) (λ q. cc))
            | inl (r, good) ↦
                elim (Bool-cases (
                  not (valid_fleet_effect_identity key)
                  || not (valid_fleet_effect_identity effect_id))) [
                    | inl bad ↦ inl (λ w response. rw (sound, bound, good, bad, admitted) (λ q. cc))
                    | inr keys ↦ inr (
                      r,
                      bound ∙ ap (λ x. some x) good,
                      λ w. rw (sound, bound, good, keys, admitted) refl,
                    )
                  ]
          ]
        ]
      ]

  pub admitted-IsReplayed :
      {R : Type 0} (container_id key effect_id : String) (decoded : Option (Result String R))
      (run : R → h.World → Answer × h.World)
      → ((r : R) → IsReplayed h (run r))
      → IsReplayed h (admitted h container_id key effect_id decoded run)
  admitted-IsReplayed container_id key effect_id decoded run again w response q =
      elim (admitted-cases container_id key effect_id decoded run) [
        | inl never ↦ absurd (never w response q)
        | inr (r, bound, same) ↦
            let e : admitted h container_id key effect_id decoded run ≡ run r = fun_ext same in
            subst (λ f. IsReplayed h f) (sym e) (again r) w response q
      ]

  pub admitted_valid :
      {R : Type 0} (container_id key effect_id : String) (decoded : Option (Result String R))
      (run : R → h.World → Answer × h.World) (w : h.World) (response : String)
      → (admitted h container_id key effect_id decoded run w).0 ≡ responded response
      → valid_fleet_identity container_id ≡ true
  unfolding admitted
  admitted_valid container_id key effect_id decoded run w response =
      elim (Bool-cases (valid_fleet_identity container_id)) [
        | inr bad ↦ rw (bad, admitted) (λ q. absurd cc)
        | inl sound ↦ λ q. sound
      ]

  pub admitted_refuses :
      {R : Type 0} (container_id key effect_id : String) (decoded : Option (Result String R))
      (run : R → h.World → Answer × h.World) (w : h.World) (message : String)
      → valid_fleet_identity container_id ≡ true
      → decoded ≡ some (err message)
      → admitted h container_id key effect_id decoded run w ≡ (failed 400 message, w)
  unfolding admitted
  admitted_refuses container_id key effect_id decoded run w message sound bad =
      rw (sound, bad, admitted) refl
