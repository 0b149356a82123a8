-- ===== src/HostAgent/Client/Isolation.antt =====
-- What reaches the engine of a host, and how often.
use bananagine.Prelude.{
  ℕ, zero, suc, ◌+◌, ◌≤◌, String, ℤ, pos_part, true, not, string_eq, nat_eq, Option, none, some,
  ◌≡◌, refl, ap, ◌∙◌, arith, inl, inr, Bool-cases, Option-cases, if◌then◌else◌,
}
use bananagine.Service.{Result-cases}
use bananagine.HostAgent.Types.{AgentHost, Config, Action, Engine}
use bananagine.HostAgent.Client.{Client, validate_action}
use bananagine.HostAgent.Client.Step.{
  invocation, is_operation, engine_run, settle, execute_and_settle, claim, step_from, step,
}
use bananagine.HostAgent.Client.Assigned.{IsAssigned, claim-IsAssigned}

module _ (h : AgentHost) (cfg : Config) (one other : Engine h.World)
    (agree : (a : Action) (now : ℤ) (w : h.World)
      → is_operation a.desired.operation ≡ true
      → IsAssigned h cfg now a
      → engine_run one a.desired.operation (invocation cfg a) w
        ≡ engine_run other a.desired.operation (invocation cfg a) w) where
  execute_and_settle-agree :
      (a : Action) (now : ℤ) (w : h.World)
      → IsAssigned h cfg now a
      → execute_and_settle h cfg one a now w ≡ execute_and_settle h cfg other a now w
  unfolding execute_and_settle
  execute_and_settle-agree a now w valid = elim (Bool-cases (is_operation a.desired.operation)) [
    | inr unknown ↦ rw (unknown, execute_and_settle) refl
    | inl known ↦
        let same = agree a now w known valid in
        ap
          (λ r.
            if not (is_operation a.desired.operation)
            then (some "unsupported assignment operation", w)
            else settle h cfg a now r.0.0 r.0.1 r.1)
          same
  ]

  -- What the loop makes of an action's settlement.
  abbrev settled_next :
      Engine h.World → ℕ → ℕ → Client h → Option String × h.World → (ℕ × Option String) × Client h
  settled_next engine left processed c1 r = elim r.0 [
    | some e ↦ ((suc processed, some e), record c1 { world = r.1 })
    | none ↦ step_from h cfg engine left (suc processed) (record c1 { world = r.1 })
  ]

  settled_next-agree :
      (left processed : ℕ) (c1 : Client h)
      → ((c2 : Client h)
          → step_from h cfg one left (suc processed) c2
            ≡ step_from h cfg other left (suc processed) c2)
      → (failure : Option String) (w : h.World)
      → settled_next one left processed c1 (failure, w)
        ≡ settled_next other left processed c1 (failure, w)
  settled_next-agree left processed c1 again (some e) w = refl
  settled_next-agree left processed c1 again none w = again (record c1 { world = w })

  step_from-agree :
      (left processed : ℕ) (c : Client h)
      → step_from h cfg one left processed c ≡ step_from h cfg other left processed c
  unfolding step_from
  step_from-agree zero processed c = refl
  step_from-agree (suc left) processed c =
      let (now, claimed, c1) = claim h cfg c in
      elim (Result-cases claimed) [
        | inr (e, failed) ↦ rw (failed, step_from) refl
        | inl (result, got) ↦ elim (Option-cases result.action) [
          | inl idle ↦ rw (got, idle, step_from) refl
          | inr (a, there) ↦ elim (Option-cases (validate_action h cfg a now)) [
            | inr (e, refused) ↦ rw (got, there, refused, step_from) refl
            | inl valid ↦
                rw (got, there, valid, step_from)
                  (ap (settled_next one left processed c1) (
                      execute_and_settle-agree a now c1.world
                        (claim-IsAssigned h cfg c result a got there valid))
                    ∙ settled_next-agree left processed c1
                        (λ c2. step_from-agree left (suc processed) c2)
                        (execute_and_settle h cfg other a now c1.world).0
                        (execute_and_settle h cfg other a now c1.world).1)
          ]
        ]
      ]

  -- The engine of a host gets the five operations only, and only for actions that an answer of Evolution
  -- decodes to and that are for this host, name a workload, a generation, an attempt and a lease, have
  -- the fence of their generation, a lease that has not expired by the clock, and two digests that are
  -- those of their payload: two engines that do the same for those actions give the same tick, with the
  -- same posts, result and state, whatever Evolution answers.
  pub step-agree : (c : Client h) → step h cfg one c ≡ step h cfg other c
  unfolding step
  step-agree c = step_from-agree (pos_part cfg.max_actions) 0 c

module _ (h : AgentHost) (cfg : Config) (engine : Engine h.World) where
  step_from_bounded :
      (left processed : ℕ) (c : Client h)
      → (step_from h cfg engine left processed c).0.0 ≤ left + processed
  unfolding step_from
  step_from_bounded zero processed c = omega arith
  step_from_bounded (suc left) processed c =
      let (now, claimed, c1) = claim h cfg c in
      elim (Result-cases claimed) [
        | inr (e, failed) ↦ rw (failed, step_from) (omega arith)
        | inl (result, got) ↦ elim (Option-cases result.action) [
          | inl idle ↦ rw (got, idle, step_from) (omega arith)
          | inr (a, there) ↦ elim (Option-cases (validate_action h cfg a now)) [
            | inr (e, refused) ↦ rw (got, there, refused, step_from) (omega arith)
            | inl valid ↦
                let (failure, w) = execute_and_settle h cfg engine a now c1.world in
                elim (Option-cases failure) [
                  | inr (e, stuck) ↦ rw (got, there, valid, stuck, step_from) (omega arith)
                  | inl settled ↦
                      let rest = step_from_bounded left (suc processed) (record c1 { world = w }) in
                      rw (got, there, valid, settled, step_from) (omega (arith, rest))
                ]
          ]
        ]
      ]

  -- A tick processes at most the actions of the configuration.
  pub step-bounded : (c : Client h) → (step h cfg engine c).0.0 ≤ pos_part cfg.max_actions
  unfolding step
  step-bounded c =
      let bound = step_from_bounded (pos_part cfg.max_actions) 0 c in omega (arith, bound)
