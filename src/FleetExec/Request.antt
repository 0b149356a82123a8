-- ===== src/FleetExec/Request.antt =====
-- The request of the exec-v2 route and what it admits. Parsing the JSON is not modelled: `fields` are
-- the names in the body, none if it is no object, and `bound` is what the body binds to. Whether a
-- text matches one of the allowed patterns (package regexp) is a parameter.
use bananagine.Prelude.{
  String, Bool, true, false, not, ◌&&◌, ◌||◌, string_eq, nat_eq, ◌==◌, Option, none, some, List, [],
  ◌∷◌, if◌then◌else◌, length,
}
use bananagine.Service.{Result, ok, err}
use bananagine.Text.Identity.{valid_fleet_identity}
use bananagine.Creation.Template.{mem_text}

pub record ExecRequest : Type 0 where
  pub server_id : String
  pub node_id : String
  pub cmd : List String

-- `sh -c <arg>` has to match a pattern as a whole; mcrcon and rcon take their arguments as they are.
unfoldable pub allowed : (String → Bool) → List String → Bool
allowed matches [] = false
allowed matches (first ∷ rest) = if first == "mcrcon" || first == "rcon" then true else (elim rest [
  | [] ↦ false
  | flag ∷ args ↦ elim args [
    | [] ↦ false
    | arg ∷ more ↦ elim more [ [] ↦ first == "sh" && flag == "-c" && matches arg | _ ∷ _ ↦ false ]
  ]
])

abbrev pub field_names : List String
field_names = "server_id" ∷ "node_id" ∷ "cmd" ∷ []

unfoldable pub all_known : List String → Bool
unfolding mem_text
all_known [] = true
all_known (field ∷ rest) = mem_text field field_names && all_known rest

-- The checks in their order.
unfoldable pub decode_request :
    (String → Bool) → Option (List String) → Option ExecRequest → Result String ExecRequest
unfolding mem_text all_known allowed valid_fleet_identity
decode_request matches none bound = err "valid JSON body is required"
decode_request matches (some fields) bound =
    if not (length fields == 3)
      || not (mem_text "server_id" fields)
      || not (mem_text "node_id" fields)
      || not (mem_text "cmd" fields)
    then err "exec-v2 requires exactly server_id, node_id, and cmd"
    else if not (all_known fields)
    then err "payload field is not allowed"
    else (elim bound [
      | none ↦ err "invalid exec-v2 payload"
      | some request ↦
          if not (valid_fleet_identity request.server_id)
            || not (valid_fleet_identity request.node_id)
            || not (allowed matches request.cmd)
          then err "exec-v2 requires safe server, node, and allowlisted command"
          else ok request
    ])
