-- ===== src/FleetExec/Tests.antt =====
-- Runs of pulp-cell/exec_idempotency_routes.go at concrete inputs, with files that are never lost.
use bananagine.Prelude.{
  ◌∙◌, sym, String, string_eq, true, false, ◌==◌, ◌≡◌, ◌≢◌, refl, arith, eq_iff, Option, none, some,
  [], ◌∷◌,
}
use bananagine.Service.{ok, err}
use bananagine.Text.Identity.{valid_fleet_identity, valid_fleet_effect_identity}
use bananagine.FleetExec.Request.{allowed}
use bananagine.FleetExec.Handler.{Receipt, ExecHost, responded, Call, handle}
use bananagine.FleetExec.Once.{IsDurable, handle_again}

-- The world is the content of the one file, or none where there is none yet.
abbrev host : ExecHost
host = record {
  World = Option Receipt;
  Wire = Receipt;
  get = λ id w. (ok (some "4f2a"), w);
  get_owned = λ id w. (ok (some "4f2a"), w);
  exec = λ id cmd w. (ok "hi", w);
  read = λ path w. elim w [ none ↦ err true | some wire ↦ ok wire ];
  mkdir_all = λ path w. (true, w);
  write = λ path wire w. (true, some wire);
  rename = λ old new w. (true, w);
  encode_receipt = λ r. some r;
  decode_receipt = λ wire. some wire;
  encode_response = λ output. some "done";
  digest = λ container effect request. some "d0";
  name_of = λ value. value;
}

host-IsDurable : IsDurable host
host-IsDurable = record {
  read-rename = λ temporary path wire w written renamed. refl;
  decode-encode = λ receipt wire e. sym e;
  non_empty = λ output response e empty. done_non_empty (encoded response e ∙ empty);
}
  where
    done : String
    done = "done"

    encoded : (response : String) → some done ≡ some response → done ≡ response
    encoded response e = cc

    done_non_empty : done ≢ ""
    done_non_empty = ground (arith, eq_iff done "")

abbrev call : Call
call = record {
  container_id = "4f2a";
  idempotency_key = "k-1";
  effect_id = "e-1";
  request = record { server_id = "mc-1"; node_id = "node-a"; cmd = "rcon" ∷ "list" ∷ [] };
}

answers : (handle host call none).0 ≡ responded "done"
unfolding handle valid_fleet_identity valid_fleet_effect_identity
answers = refl

handle_again_example :
    handle host call (handle host call none).1 ≡ (responded "done", (handle host call none).1)
handle_again_example = handle_again host host-IsDurable call none "done" answers

refuses_chained :
    allowed (λ arg. arg == "ls /data") ("sh" ∷ "-c" ∷ "ls /data; rm -rf /" ∷ []) ≡ false
unfolding allowed
refuses_chained = refl
