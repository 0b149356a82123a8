-- ===== src/HostAgent/HostEngine/Tests.antt =====
-- Runs of the host agent's engine at concrete inputs.
use bananagine.Prelude.{String, pos_part, none, refl, string_eq}
use bananagine.Allocation.Capacity.Whole.{whole}
use bananagine.Creation.Lookup.{existing_server}
use bananagine.Creation.Tests.{host, core, node_with, pools-IsKeyed}
use bananagine.HostAgent.Types.{Invocation}
use bananagine.HostAgent.HostEngine.{Console, is_foreign, delete}
use bananagine.HostAgent.HostEngine.Deletion.{seen, Deleted, delete-Deleted}

abbrev console : Console String
console = record {
  exec = λ id command w. (none, w);
  restart = λ id w. (none, w);
  quote = λ text. text;
}

abbrev deletes : Invocation
deletes = record {
  host_id = "node-a";
  agent_id = "agent-1";
  workload_id = "mc-1";
  generation = 4;
  payload = "{}";
  idempotency_key = "assignment/mc-1/4/1/d0";
}

delete-Deleted_example :
    Deleted whole host console "node-a" core
      (λ payload. none)
      (λ spec. "d0")
      (λ cause. "failed")
      (λ n. pos_part n)
      (existing_server whole host "mc-1" "running").0
      (seen whole host console "node-a" core
        (λ payload. none)
        (λ spec. "d0")
        (λ cause. "failed")
        (λ n. pos_part n)
        deletes
        (node_with "running"))
      (delete whole host console "node-a" core
        (λ payload. none)
        (λ spec. "d0")
        (λ cause. "failed")
        (λ n. pos_part n)
        deletes
        (node_with "running"))
unfolding is_foreign
delete-Deleted_example =
    delete-Deleted whole host console "node-a" core (λ payload. none) (λ spec. "d0")
      (λ cause. "failed") (λ n. pos_part n) deletes (node_with "running") refl pools-IsKeyed
