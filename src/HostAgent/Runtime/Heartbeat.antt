-- ===== src/HostAgent/Runtime/Heartbeat.antt =====
-- The generations of a host's heartbeats.
use bananagine.Prelude.{
  ℕ, ◌+◌, ◌^◌, ◌<◌, leb, nat_eq, ℤ, leb_ℤ, true, false, ◌≡◌, arith, inl, inr, Bool-cases,
  Option-cases,
}
use bananagine.HostAgent.Types.{AgentHost, Config, Engine}
use bananagine.HostAgent.Client.{observe}
use bananagine.HostAgent.Runtime.{HostAgentRuntime, observation, to_uint64, next_generation, tick}

next_generation_lem :
    (millis : ℤ) (last : ℕ) → last + 1 < 2 ^ 64 → last < next_generation millis last
unfolding next_generation
next_generation_lem millis last h = elim (Bool-cases (leb (to_uint64 millis) last)) [
  | inl behind ↦ rw (behind, next_generation) (omega arith)
  | inr ahead ↦ rw (ahead, next_generation) (above (to_uint64 millis) ahead)
]
  where
    above : (n : ℕ) → leb n last ≡ false → last < n
    above n q = ground arith

module _ (h : AgentHost) (cfg : Config) (engine : Engine h.World) where
  -- A tick that is due raises the generation that the next heartbeat has to exceed, also where the clock
  -- has gone back and where the heartbeat or the claims fail, as long as a uint64 has room for it.
  pub tick_advances :
      (now : ℤ) (r : HostAgentRuntime h)
      → leb_ℤ r.next now ≡ true
      → r.last_generation + 1 < 2 ^ 64
      → r.last_generation < (tick h cfg engine now r).1.last_generation
  unfolding tick
  tick_advances now r due room =
      let generation = next_generation (h.unix_milli now) r.last_generation in
      let larger = next_generation_lem (h.unix_milli now) r.last_generation room in
      elim (Option-cases (observe h cfg (observation h r now generation) r.client).0) [
        | inl observed ↦ rw (due, observed, tick) larger
        | inr (e, failed) ↦ rw (due, failed, tick) larger
      ]
