-- ===== src/Fleet/Tests.antt =====
-- Runs of the fleet's routes at concrete inputs, with files that are never lost.
use Prim.Native.String.{◌++◌}
use bananagine.Prelude.{
  ◌∙◌, sym, pos, String, string_eq, nat_eq, true, false, ◌≡◌, ◌≢◌, refl, arith, eq_iff, Option,
  none, some, List, [], ◌∷◌, All, ◌≤◌, length, if◌then◌else◌, leb_ℤ,
}
use bananagine.Service.{ok, err}
use bananagine.Text.Alphabet.{Consists, Consists-append}
use bananagine.Text.Identity.{valid_fleet_identity}
use bananagine.Allocation.Capacity.Whole.{whole}
use bananagine.Fleet.Host.{Receipt, FleetHost, failed, responded}
use bananagine.Fleet.Host.Replay.{IsDurable}
use bananagine.Fleet.Console.{word_char, text_char, IsConsole}
use bananagine.Fleet.Lifecycle.{
  LifecycleCall, fleet_reconfigure_commands, fleet_lifecycle_handler, first_other,
}
use bananagine.Fleet.Lifecycle.Replay.{fleet_lifecycle_handler_again}
use bananagine.Fleet.Lifecycle.Console.{fleet_reconfigure_commands-IsConsole}
use bananagine.Fleet.Access.{
  PlayerIdentity, PlayerAction, AccessRequest, AccessCall, decode_fleet_access_apply_request,
  fleet_access_apply_commands, fleet_access_apply_handler, max_commands,
}
use bananagine.Fleet.Access.Replay.{fleet_access_apply_handler_again}
use bananagine.Fleet.Access.Admitted.{
  decode_fleet_access_apply_request_panics, fleet_access_apply_commands-Bounded,
}
use bananagine.Fleet.Transfer.{
  TransferRequest, TransferCall, ParseUrl, fleet_world_transfer_handler,
}
use bananagine.Fleet.Transfer.Replay.{fleet_world_transfer_handler_again}

-- The world is the content of the one file, or none where there is none yet.
abbrev host : FleetHost
host = record {
  World = Option Receipt;
  Wire = Receipt;
  get = λ id w. (ok (some "4f2a"), w);
  get_owned = λ id w. (ok (some "4f2a"), w);
  exec = λ id cmd w. (none, w);
  restart = λ id w. (none, w);
  read = λ path w. elim w [ none ↦ err true | some wire ↦ ok wire ];
  mkdir_all = λ path w. (true, w);
  write = λ path wire w. (true, some wire);
  rename = λ old new w. (true, w);
  unix_now = λ w. pos 1000;
  encode_receipt = λ r. some r;
  decode_receipt = λ wire. some wire;
  encode_response = λ output. some "done";
  sha256 = λ text. "d0";
  name_of = λ value. value;
  quote = λ value. value;
}

host-IsDurable : IsDurable host
host-IsDurable = record {
  read-rename = λ temporary path wire w written renamed. refl;
  decode-encode = λ receipt wire e. sym e;
  non_empty = λ output response e empty. done_non_empty (encoded response e ∙ empty);
}
  where
    done : String
    done = "done"

    encoded : (response : String) → some done ≡ some response → done ≡ response
    encoded response e = cc

    done_non_empty : done ≢ ""
    done_non_empty = ground (arith, eq_iff done "")

abbrev restart : LifecycleCall whole
restart = record {
  action = "restart";
  id = "4f2a";
  idempotency_key = "k-1";
  effect_id = "e-1";
  fields = some ("server_id" ∷ "node_id" ∷ []);
  bound = some (record {
    server_id = "mc-1";
    node_id = "node-a";
    resources = record { cpu = 0; memory = pos 0 };
    env = none;
  });
}

restarts : (fleet_lifecycle_handler whole host (λ r. some "{}") restart none).0 ≡ responded "done"
unfolding fleet_lifecycle_handler
restarts = refl

fleet_lifecycle_handler_again_example :
    fleet_lifecycle_handler whole host
      (λ r. some "{}")
      restart
      (fleet_lifecycle_handler whole host (λ r. some "{}") restart none).1
    ≡ (responded "done", (fleet_lifecycle_handler whole host (λ r. some "{}") restart none).1)
fleet_lifecycle_handler_again_example =
    fleet_lifecycle_handler_again whole host (λ r. some "{}") host-IsDurable restart none "done"
      restarts

fleet_reconfigure_commands-IsConsole_example :
    All (IsConsole word_char) (("rcon" ∷ "gamerule keepInventory true" ∷ []) ∷ [])
unfolding fleet_reconfigure_commands
fleet_reconfigure_commands-IsConsole_example =
    fleet_reconfigure_commands-IsConsole (λ t. t) (("FLEET_GAMERULE_keepInventory", "true") ∷ [])
      (("rcon" ∷ "gamerule keepInventory true" ∷ []) ∷ []) refl

abbrev steve : PlayerIdentity
steve = record { name = "Steve"; uuid = "069a79f4-44e9-4726-a5be-fca90e38aaf5"; platform = "java" }

abbrev kick : PlayerAction
kick = record {
  action = "kick";
  target = some steve;
  value = "";
  reason_code = "afk";
  reason_message = "idle";
}

abbrev kicks : AccessRequest
kicks = record {
  server_id = "mc-1";
  node_id = "node-a";
  operation = "player_action";
  generation = 3;
  access = none;
  player = some kick;
}

abbrev names : List String
names = "server_id" ∷ "node_id" ∷ "operation" ∷ "generation" ∷ "player" ∷ []

abbrev kick_call : AccessCall
kick_call = record {
  id = "4f2a";
  idempotency_key = "k-2";
  effect_id = "e-2";
  fields = some names;
  bound = some kicks;
}

-- The JSON of a text in which nothing has to be escaped.
abbrev json_text : String → String
json_text value = "{\"text\":\"" ++ value ++ "\"}"

json_text-Consists : (s : String) → Consists text_char s → Consists text_char (json_text s)
json_text-Consists s h =
    Consists-append text_char "{\"text\":\"" (s ++ "\"}") refl
      (Consists-append text_char s "\"}" h refl)

abbrev greeting : PlayerAction
greeting = record {
  action = "announce";
  target = none;
  value = "Maintenance at noon";
  reason_code = "maintenance";
  reason_message = "";
}

abbrev greets : AccessRequest
greets = record kicks { player = some greeting }

kicked :
    (fleet_access_apply_handler host (λ r. some "{}") json_text kick_call none).0 ≡ responded "done"
unfolding fleet_access_apply_handler
kicked = refl

fleet_access_apply_handler_again_example :
    fleet_access_apply_handler host
      (λ r. some "{}")
      json_text
      kick_call
      (fleet_access_apply_handler host (λ r. some "{}") json_text kick_call none).1
    ≡ (
      responded "done",
      (fleet_access_apply_handler host (λ r. some "{}") json_text kick_call none).1,
    )
fleet_access_apply_handler_again_example =
    fleet_access_apply_handler_again host (λ r. some "{}") json_text host-IsDurable kick_call none
      "done" kicked

greets_decodes :
    decode_fleet_access_apply_request (λ t. t) (some names) (some greets) ≡ some (ok greets)
unfolding decode_fleet_access_apply_request
greets_decodes = refl

fleet_access_apply_commands-Bounded_example :
    (commands : List (List String)) × (fleet_access_apply_commands json_text greets
      ≡ some (ok commands))
    × All (IsConsole text_char) commands
    × (length commands ≤ max_commands)
fleet_access_apply_commands-Bounded_example =
    fleet_access_apply_commands-Bounded json_text json_text-Consists (λ t. t) (some names)
      (some greets) greets greets_decodes

abbrev confused : AccessRequest
confused = record kicks { operation = "access" }

decode_fleet_access_apply_request_panics_example :
    decode_fleet_access_apply_request (λ t. t) (some names) (some confused) ≡ none
unfolding valid_fleet_identity first_other
decode_fleet_access_apply_request_panics_example =
    decode_fleet_access_apply_request_panics (λ t. t) names confused kick refl refl refl refl refl
      refl refl

abbrev upload : TransferRequest
upload = record {
  version = "world-transfer.v1";
  server_id = "mc-1";
  node_id = "node-a";
  object = record {
    namespace = "worlds";
    key = "mc-1/world.tar";
    generation = 2;
    sha256 = "00000000000000000000000000000000ffffffffffffffffffffffffffffffff";
    size_bytes = pos 4096;
  };
  transfer = record { url = "https://s3/x"; expires_at_unix = pos 1600 };
}

abbrev upload_call : TransferCall
upload_call = record {
  action = "upload-apply";
  id = "4f2a";
  idempotency_key = "k-3";
  effect_id = "e-3";
  fields = some ("version" ∷ "server_id" ∷ "node_id" ∷ "object" ∷ "transfer" ∷ []);
  bound = some upload;
}

abbrev parse : ParseUrl
parse text = some (record { scheme = "https"; host = "s3"; has_user = false; fragment = "" })

uploads :
    (fleet_world_transfer_handler host (λ r. some "{}") parse upload_call none).0 ≡ responded "done"
unfolding fleet_world_transfer_handler
uploads = refl

fleet_world_transfer_handler_again_example :
    fleet_world_transfer_handler host
      (λ r. some "{}")
      parse
      upload_call
      (fleet_world_transfer_handler host (λ r. some "{}") parse upload_call none).1
    ≡ (
      (if leb_ℤ (pos 1600) (
            host.unix_now
              (fleet_world_transfer_handler host (λ r. some "{}") parse upload_call none).1)
          then failed 400 "typed world transfer identity is invalid"
          else responded "done"),
      (fleet_world_transfer_handler host (λ r. some "{}") parse upload_call none).1,
    )
fleet_world_transfer_handler_again_example =
    fleet_world_transfer_handler_again host (λ r. some "{}") parse host-IsDurable upload_call upload
      none "done" refl uploads
