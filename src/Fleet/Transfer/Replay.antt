-- ===== src/Fleet/Transfer/Replay.antt =====
-- Receipts of fleetWorldTransferHandler: an answered call is answered again from its receipt, as long
-- as its reference has not expired.
use bananagine.Prelude.{
  String, ℤ, leb_ℤ, false, not, ◌||◌, ◌==◌, List, nat_eq, length, Option, none, some, ◌≡◌, refl,
  ◌∙◌, ap, sym, subst, if◌then◌else◌, inl, inr, Bool-cases, Option-cases, arith,
}
use bananagine.Service.{Result, ok, err}
use bananagine.Text.{trim_space}
use bananagine.Creation.Host.{DockerError}
use bananagine.Fleet.Host.{FleetHost, failed, responded, Operation, is_container, admitted}
use bananagine.Fleet.Host.Replay.{
  IsDurable, Kept, Keeps, IsReplayed, finish-Kept, lookup_failed_fails, keyed-IsReplayed,
  admitted-IsReplayed, admitted-cases, admitted_valid, admitted_refuses,
}
use bananagine.Fleet.Tokens.{is_hex}
use bananagine.Fleet.Lifecycle.{first_other}
use bananagine.Fleet.Transfer.{
  TransferRequest, TransferCall, domain, operation, stage_command, flag_of, ParseUrl, restarted,
  staged, execute, owned_answered, got, work, run, identity_defect, url_defect,
  validate_fleet_world_transfer_request, field_names, decode_fleet_world_transfer_request,
  fleet_world_transfer_handler,
}

-- The clock decides one of the tests only.
identity_defect_later :
    (now later : ℤ) (r : TransferRequest)
    → identity_defect now r ≡ false
    → identity_defect later r ≡ leb_ℤ r.transfer.expires_at_unix later
unfolding identity_defect
identity_defect_later now later r = ground (arith)

-- What a later validation says of a request that was valid.
abbrev at_later : ℤ → TransferRequest → Option String
at_later later r =
    if leb_ℤ r.transfer.expires_at_unix later
    then some "typed world transfer identity is invalid"
    else none

validate_later :
    (parse : ParseUrl) (now later : ℤ) (r : TransferRequest)
    → validate_fleet_world_transfer_request parse now r ≡ none
    → validate_fleet_world_transfer_request parse later r ≡ at_later later r
unfolding validate_fleet_world_transfer_request
validate_later parse now later r = elim (Bool-cases (identity_defect now r)) [
  | inl bad ↦ rw (bad, validate_fleet_world_transfer_request) (λ q. absurd cc)
  | inr sound ↦
      let moved = identity_defect_later now later r sound in
      elim (Bool-cases (is_hex r.object.sha256)) [
        | inr other ↦ rw (sound, other, validate_fleet_world_transfer_request) (λ q. absurd cc)
        | inl hex ↦ elim (Bool-cases (url_defect (parse r.transfer.url))) [
          | inl bad ↦ rw (sound, hex, bad, validate_fleet_world_transfer_request) (λ q. absurd cc)
          | inr fine ↦
              rw (sound, moved, hex, fine, validate_fleet_world_transfer_request) (λ q. refl)
        ]
      ]
]

-- What a later decoding makes of a body that was decoded.
decode_later :
    (quote : String → String) (parse : ParseUrl) (now later : ℤ) (fields : Option (List String))
    (bound : Option TransferRequest) (r decoded : TransferRequest)
    → bound ≡ some r
    → decode_fleet_world_transfer_request quote parse now fields bound ≡ ok decoded
    → decode_fleet_world_transfer_request quote parse later fields bound ≡ (
        if leb_ℤ r.transfer.expires_at_unix later
        then err "typed world transfer identity is invalid"
        else ok decoded)
unfolding decode_fleet_world_transfer_request
decode_later quote parse now later none bound r decoded binds = λ q. absurd cc
decode_later quote parse now later (some fields) bound r decoded binds =
    elim (Bool-cases (length fields == 5)) [
      | inr short ↦ rw (short, decode_fleet_world_transfer_request) (λ q. absurd cc)
      | inl five ↦ elim (Option-cases (first_other field_names fields)) [
        | inr (field, other) ↦
            rw (five, other, decode_fleet_world_transfer_request) (λ q. absurd cc)
        | inl none_other ↦ elim (Option-cases (validate_fleet_world_transfer_request parse now r)) [
          | inr (message, bad) ↦
              rw (five, none_other, binds, bad, decode_fleet_world_transfer_request)
                (λ q. absurd cc)
          | inl valid ↦
              let moved = validate_later parse now later r valid in
              rw (five, none_other, binds, valid, moved, decode_fleet_world_transfer_request)
                (λ q. elim (Bool-cases (leb_ℤ r.transfer.expires_at_unix later)) [
                  | inl expired ↦ rw expired refl
                  | inr alive ↦ rw alive q
                ])
        ]
      ]
    ]

module _ (h : FleetHost) (marshal : TransferRequest → Option String) (parse : ParseUrl)
    (d : IsDurable h) where
  restarted-Kept :
      (o : Operation) (request : TransferRequest) (failure : Option DockerError) (w : h.World)
      (response : String)
      → (restarted h marshal parse o request failure w).0 ≡ responded response
      → Kept h o response (restarted h marshal parse o request failure w).1
  unfolding restarted
  restarted-Kept o request (some e) w response q = absurd cc
  restarted-Kept o request none w response q = finish-Kept h d o _ _ w response q

  staged-Kept :
      (o : Operation) (request : TransferRequest) (failure : Option DockerError) (w : h.World)
      (response : String)
      → (staged h marshal parse o request failure w).0 ≡ responded response
      → Kept h o response (staged h marshal parse o request failure w).1
  unfolding staged
  staged-Kept o request (some e) w response = λ q. absurd cc
  staged-Kept o request none w response =
      let (failure, w') = h.restart o.container_id w in restarted-Kept o request failure w' response

  execute-Kept :
      (o : Operation) (request : TransferRequest) (w : h.World) (response : String)
      → (execute h marshal parse o request w).0 ≡ responded response
      → Kept h o response (execute h marshal parse o request w).1
  unfolding execute
  execute-Kept o request w response =
      let (failure, w') =
        h.exec o.container_id (stage_command (flag_of o.action) request.transfer.url) w in
      staged-Kept o request failure w' response

  owned_answered-Kept :
      (o : Operation) (request : TransferRequest) (server : Option String)
      (owned : Result DockerError (Option String)) (w : h.World) (response : String)
      → (owned_answered h marshal parse o request server owned w).0 ≡ responded response
      → Kept h o response (owned_answered h marshal parse o request server owned w).1
  unfolding owned_answered
  owned_answered-Kept o request server (err e) w response =
      λ q. absurd (lookup_failed_fails e "scoped server lookup unavailable" response q)
  owned_answered-Kept o request server (ok owned) w response =
      elim (Bool-cases
        (not (is_container o.container_id server) || not (is_container o.container_id owned))) [
          | inl other ↦ rw (other, owned_answered) (λ q. absurd cc)
          | inr same ↦ rw (same, owned_answered) (execute-Kept o request w response)
        ]

  got-Kept :
      (o : Operation) (request : TransferRequest) (server : Result DockerError (Option String))
      (w : h.World) (response : String)
      → (got h marshal parse o request server w).0 ≡ responded response
      → Kept h o response (got h marshal parse o request server w).1
  unfolding got
  got-Kept o request (err e) w response =
      λ q. absurd (lookup_failed_fails e "scoped runtime lookup unavailable" response q)
  got-Kept o request (ok server) w response =
      let (owned, w') = h.get_owned request.server_id w in
      owned_answered-Kept o request server owned w' response

  work-Keeps : (request : TransferRequest) → Keeps h (work h marshal parse request)
  unfolding work
  work-Keeps request o w = let (server, w') = h.get o.container_id w in got-Kept o request server w'

  run-IsReplayed :
      (c : TransferCall) (request : TransferRequest) → IsReplayed h (run h marshal parse c request)
  unfolding run
  run-IsReplayed c request =
      keyed-IsReplayed h (marshal request) "invalid typed world transfer" (domain c) (operation c)
        "idempotency key already belongs to a different world transfer"
        (work h marshal parse request) (work-Keeps request)

  -- With durable files and responses that are not empty, a call of a world transfer that was answered
  -- with a response is answered with the same response when it is made again before its reference
  -- expires, and with the status 400 from then on; neither stages the reference or restarts the
  -- runtime again.
  pub fleet_world_transfer_handler_again :
      (c : TransferCall) (r : TransferRequest) (w : h.World) (response : String)
      → c.bound ≡ some r
      → (fleet_world_transfer_handler h marshal parse c w).0 ≡ responded response
      → fleet_world_transfer_handler h marshal parse c
          (fleet_world_transfer_handler h marshal parse c w).1
        ≡ (
          (if leb_ℤ r.transfer.expires_at_unix
                (h.unix_now (fleet_world_transfer_handler h marshal parse c w).1)
              then failed 400 "typed world transfer identity is invalid"
              else responded response),
          (fleet_world_transfer_handler h marshal parse c w).1,
        )
  unfolding fleet_world_transfer_handler
  fleet_world_transfer_handler_again c r w response binds q =
      elim (admitted-cases h (id c) c.idempotency_key c.effect_id (some first)
        (run h marshal parse c)) [
          | inl never ↦ absurd (never w response q)
          | inr (request, decoded, same) ↦
              let moved =
                decode_later h.quote parse now later c.fields c.bound r request binds cc in
              elim (Bool-cases (leb_ℤ r.transfer.expires_at_unix later)) [
                | inl expired ↦
                    let refused : again ≡ err "typed world transfer identity is invalid" =
                      moved ∙ rw expired refl in
                    rw expired (
                      admitted_refuses h (id c) c.idempotency_key c.effect_id (some again)
                        (run h marshal parse c) w' "typed world transfer identity is invalid"
                        (admitted_valid h (id c) c.idempotency_key c.effect_id (some first)
                          (run h marshal parse c) w response q)
                        (ap (λ x. some x) refused))
                | inr alive ↦
                    let decodes : again ≡ ok request = moved ∙ rw alive refl in
                    let equal : again ≡ first = decodes ∙ cc in
                    rw alive (
                      subst
                        (λ x.
                          admitted h (id c) c.idempotency_key c.effect_id (some x)
                            (run h marshal parse c) w'
                          ≡ (responded response, w'))
                        (sym equal)
                        (admitted-IsReplayed h (id c) c.idempotency_key c.effect_id (some first)
                          (run h marshal parse c) (λ request. run-IsReplayed c request) w response
                          q))
              ]
        ]
    where
      id : TransferCall → String
      id call = trim_space call.id

      now : ℤ
      now = h.unix_now w

      w' : h.World
      w' = (fleet_world_transfer_handler h marshal parse c w).1

      later : ℤ
      later = h.unix_now w'

      first : Result String TransferRequest
      first = decode_fleet_world_transfer_request h.quote parse now c.fields c.bound

      again : Result String TransferRequest
      again = decode_fleet_world_transfer_request h.quote parse later c.fields c.bound
