-- ===== src/HostAgent/Client/Assigned.antt =====
-- Which of the claimed actions the client carries out.
use bananagine.Prelude.{
  ℕ, String, ℤ, leb_ℤ, Bool, true, false, not, ◌||◌, string_eq, nat_eq, eq_iff, ◌==◌, none, some,
  ◌≡◌, ◌≢◌, refl, ap, ◌∙◌, arith, inl, inr, Bool-cases, Option-cases,
}
use bananagine.Service.{Result, ok, err, ok_injective}
use bananagine.HostAgent.Types.{AgentHost, Config, Action, ClaimResult}
use bananagine.HostAgent.Client.{Client, read_result, fence_defect, validate_action}
use bananagine.HostAgent.Client.Step.{claim}

module _ (h : AgentHost) where
  -- An action that an answer decodes to, at a time that the clock shows: it is for this host, its
  -- workload, generation, attempt and lease are there, its fence is that of the generation it asks for,
  -- its lease has not expired, and both digests it comes with are that of its payload.
  pub record IsAssigned (cfg : Config) (now : ℤ) (a : Action) : Type 0 where
    pub body : String
    pub result : ClaimResult
    pub decoded : h.decode_result body ≡ some result
    pub claimed : result.action ≡ some a
    pub world : h.World
    pub shown : (h.now world).0 ≡ now
    pub host : a.desired.host_id ≡ cfg.host_id
    pub workload : a.desired.workload_id ≢ ""
    pub generation : a.desired.generation ≢ 0
    pub same : a.fence.generation ≡ a.desired.generation
    pub attempt : a.fence.attempt ≢ 0
    pub lease : a.fence.lease_id ≢ ""
    pub unexpired : leb_ℤ a.fence.lease_expires_unix_milli (h.unix_milli now) ≡ false
    pub digest : h.sha256 a.desired.payload ≡ a.fence.payload_sha256
    pub said : a.desired.payload_sha256 ≡ a.fence.payload_sha256

  none_of :
      (a b c d e f g : Bool)
      → not a || b || c || not d || e || f || g ≡ false
      → (a ≡ true)
        × (b ≡ false)
        × (c ≡ false)
        × (d ≡ true)
        × (e ≡ false)
        × (f ≡ false)
        × (g ≡ false)
  none_of a b c d e f g p = (
    ground arith,
    ground arith,
    ground arith,
    ground arith,
    ground arith,
    ground arith,
    ground arith,
  )

  fence_defect_parts :
      (cfg : Config) (a : Action) (now : ℤ)
      → fence_defect h cfg a now ≡ false
      → ((a.desired.host_id == cfg.host_id) ≡ true)
        × ((a.desired.workload_id == "") ≡ false)
        × ((a.desired.generation == 0) ≡ false)
        × ((a.fence.generation == a.desired.generation) ≡ true)
        × ((a.fence.attempt == 0) ≡ false)
        × ((a.fence.lease_id == "") ≡ false)
        × (leb_ℤ a.fence.lease_expires_unix_milli (h.unix_milli now) ≡ false)
  unfolding fence_defect
  fence_defect_parts cfg a now =
      none_of (a.desired.host_id == cfg.host_id) (a.desired.workload_id == "")
        (a.desired.generation == 0) (a.fence.generation == a.desired.generation)
        (a.fence.attempt == 0) (a.fence.lease_id == "")
        (leb_ℤ a.fence.lease_expires_unix_milli (h.unix_milli now))

  not_empty : (text : String) → (text == "") ≡ false → text ≢ ""
  not_empty text = ground (arith, eq_iff text "")

  not_zero : (n : ℕ) → (n == 0) ≡ false → n ≢ 0
  not_zero n = ground arith

  same_number : (n m : ℕ) → (n == m) ≡ true → n ≡ m
  same_number n m = ground arith

  -- An answer to a claim that is bound was decoded from its body.
  read_result-ok :
      (answer : Result String String) (result : ClaimResult)
      → read_result h answer ≡ ok result
      → (body : String) × (h.decode_result body ≡ some result)
  unfolding read_result
  read_result-ok (err e) result = λ q. absurd cc
  read_result-ok (ok body) result = elim (Option-cases (h.decode_result body)) [
    | inl unbound ↦ rw (unbound, read_result) (λ q. absurd cc)
    | inr (bound, decoded) ↦
        rw (decoded, read_result) (λ q. (body, decoded ∙ ap some (ok_injective q)))
  ]

  claim-ok :
      (cfg : Config) (c : Client h) (result : ClaimResult)
      → (claim h cfg c).1 ≡ ok result
      → (body : String) × (h.decode_result body ≡ some result)
  unfolding claim
  claim-ok cfg c result = read_result-ok _ result

  claim-shown : (cfg : Config) (c : Client h) → (h.now c.world).0 ≡ (claim h cfg c).0
  unfolding claim
  claim-shown cfg c = refl

  pub claim-IsAssigned :
      (cfg : Config) (c : Client h) (result : ClaimResult) (a : Action)
      → (claim h cfg c).1 ≡ ok result
      → result.action ≡ some a
      → validate_action h cfg a (claim h cfg c).0 ≡ none
      → IsAssigned cfg (claim h cfg c).0 a
  unfolding validate_action
  claim-IsAssigned cfg c result a got there =
      let now = (claim h cfg c).0 in
      elim (Bool-cases (fence_defect h cfg a now)) [
        | inl bad ↦ rw (bad, validate_action) (λ q. absurd cc)
        | inr fenced ↦
            let digest = h.sha256 a.desired.payload == a.fence.payload_sha256 in
            let said = a.desired.payload_sha256 == a.fence.payload_sha256 in
            elim (Bool-cases (not digest || not said)) [
              | inl bad ↦ rw (fenced, bad, validate_action) (λ q. absurd cc)
              | inr same ↦ λ q. assigned fenced (matches digest said same)
            ]
      ]
    where
      matches : (d s : Bool) → not d || not s ≡ false → (d ≡ true) × (s ≡ true)
      matches d s p = (ground arith, ground arith)

      assigned :
          fence_defect h cfg a (claim h cfg c).0 ≡ false
          → ((h.sha256 a.desired.payload == a.fence.payload_sha256) ≡ true)
            × ((a.desired.payload_sha256 == a.fence.payload_sha256) ≡ true)
          → IsAssigned cfg (claim h cfg c).0 a
      assigned fenced (digest, said) =
          let (here, workload, generation, same, attempt, lease, unexpired) =
            fence_defect_parts cfg a (claim h cfg c).0 fenced in
          let (body, decoded) = claim-ok cfg c result got in
          record {
            body = body;
            result = result;
            decoded = decoded;
            claimed = there;
            world = c.world;
            shown = claim-shown cfg c;
            host = (eq_iff a.desired.host_id cfg.host_id).0 here;
            workload = not_empty a.desired.workload_id workload;
            generation = not_zero a.desired.generation generation;
            same = same_number a.fence.generation a.desired.generation same;
            attempt = not_zero a.fence.attempt attempt;
            lease = not_empty a.fence.lease_id lease;
            unexpired = unexpired;
            digest = (eq_iff (h.sha256 a.desired.payload) a.fence.payload_sha256).0 digest;
            said = (eq_iff a.desired.payload_sha256 a.fence.payload_sha256).0 said;
          }
