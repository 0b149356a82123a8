-- ===== src/Fleet/Access/Admitted.antt =====
-- decodeFleetAccessApplyRequest followed by fleetAccessApplyCommands: the commands of an admitted body.
use bananagine.Prelude.{
  ℕ, ltb, nat_eq, String, Bool, true, false, not, ◌||◌, ◌==◌, string_eq, Option, none, some, List,
  [], ◌∷◌, ◌≡◌, ◌≢◌, ◌∙◌, ap, sym, refl, arith, inl, inr, Bool-cases, Option-cases, All,
  some_injective, subst, length, ◌≤◌,
}
use bananagine.Service.{ok, ok_injective}
use bananagine.Text.Alphabet.{Consists}
use bananagine.Text.Identity.{valid_fleet_identity}
use bananagine.Fleet.Tokens.{one_of}
use bananagine.Fleet.Console.{text_char, IsConsole}
use bananagine.Fleet.Lifecycle.{first_other}
use bananagine.Fleet.Access.Validation.{player_defect-Texts}
use bananagine.Fleet.Access.Commands.{
  access_commands-IsConsole, length-access_commands, player_command_known, player_command-Plain,
}
use bananagine.Fleet.Access.{
  field_names, AccessMutation, PlayerAction, AccessRequest, all_players, access_defect,
  player_defect, is_nil, same_bool, decode_fleet_access_apply_request, payload_defect, rcon,
  access_commands, player_command, fleet_access_apply_commands, max_commands,
}

-- What the checks leave of a request: one payload, which has no defect.
data Passed (r : AccessRequest) : Type 0 where
  access : (a : AccessMutation) → r.access ≡ some a → access_defect a ≡ none → Passed r
  player :
      (p : PlayerAction) → r.access ≡ none → r.player ≡ some p → player_defect p ≡ none → Passed r

two_payloads :
    (request : AccessRequest) (a : AccessMutation) (p : PlayerAction)
    → request.access ≡ some a
    → request.player ≡ some p
    → same_bool (is_nil request.access) (is_nil request.player) ≢ false
two_payloads request a p two there one =
    let first = ap (λ o. same_bool (is_nil o) (is_nil request.player)) two in
    let second = ap (λ o. same_bool false (is_nil o)) there in
    let clash : true ≡ false = sym (first ∙ second) ∙ one in absurd cc

payload_defect-Passed :
    (request : AccessRequest)
    → same_bool (is_nil request.access) (is_nil request.player) ≡ false
    → payload_defect request ≡ some none
    → Passed request
unfolding payload_defect
payload_defect-Passed request one = elim (Bool-cases (request.operation == "access")) [
  | inl lists ↦ elim (Option-cases request.access) [
    | inl absent ↦ rw (lists, absent, payload_defect) (λ q. absurd cc)
    | inr (a, there) ↦
        let fine : payload_defect request ≡ some none → access_defect a ≡ none =
          rw (lists, there, payload_defect) (λ q. some_injective q) in
        λ q. Passed.access a there (fine q)
  ]
  | inr acts ↦ elim (Option-cases request.player) [
    | inl absent ↦ rw (acts, absent, payload_defect) (λ q. absurd cc)
    | inr (p, there) ↦ elim (Option-cases request.access) [
      | inr (a, two) ↦ λ q. absurd (two_payloads request a p two there one)
      | inl lone ↦
          let fine : payload_defect request ≡ some none → player_defect p ≡ none =
            rw (acts, there, payload_defect) (λ q. some_injective q) in
          λ q. Passed.player p lone there (fine q)
    ]
  ]
]

-- The tests on the names of the body and on what it binds to.
abbrev header_defect : AccessRequest → Bool
header_defect r =
    not (valid_fleet_identity r.server_id)
    || not (valid_fleet_identity r.node_id)
    || r.generation == 0

abbrev payload_count_defect : AccessRequest → Bool
payload_count_defect r =
    same_bool (r.operation == "access") (r.operation == "player_action")
    || same_bool (is_nil r.access) (is_nil r.player)

right_holds : (a b : Bool) → a || b ≡ false → b ≡ false
right_holds a b h = ground arith

decode-Passed :
    (quote : String → String) (fields : Option (List String)) (bound : Option AccessRequest)
    (r : AccessRequest)
    → decode_fleet_access_apply_request quote fields bound ≡ some (ok r)
    → Passed r
unfolding decode_fleet_access_apply_request
decode-Passed quote none bound r = λ q. absurd cc
decode-Passed quote (some fields) bound r = elim (Option-cases (first_other field_names fields)) [
  | inr (field, other) ↦ rw (other, decode_fleet_access_apply_request) (λ q. absurd cc)
  | inl known ↦ elim (Option-cases bound) [
    | inl unbound ↦ rw (known, unbound, decode_fleet_access_apply_request) (λ q. absurd cc)
    | inr (request, binds) ↦ elim (Bool-cases (header_defect request)) [
      | inl bad ↦ rw (known, binds, bad, decode_fleet_access_apply_request) (λ q. absurd cc)
      | inr head ↦ elim (Bool-cases (payload_count_defect request)) [
        | inl bad ↦ rw (known, binds, head, bad, decode_fleet_access_apply_request) (λ q. absurd cc)
        | inr one ↦ elim (Option-cases (payload_defect request)) [
          | inl panics ↦
              rw (known, binds, head, one, panics, decode_fleet_access_apply_request)
                (λ q. absurd cc)
          | inr (defect, found) ↦ elim (Option-cases defect) [
            | inr (message, bad) ↦
                rw (known, binds, head, one, found, bad, decode_fleet_access_apply_request)
                  (λ q. absurd cc)
            | inl fine ↦
                rw (known, binds, head, one, found, fine, decode_fleet_access_apply_request)
                  (λ q. subst Passed (ok_injective (some_injective q)) (
                    payload_defect-Passed request
                      (right_holds
                        (same_bool (request.operation == "access")
                          (request.operation == "player_action"))
                        (same_bool (is_nil request.access) (is_nil request.player)) one)
                      (found ∙ ap (λ d. some d) fine)))
          ]
        ]
      ]
    ]
  ]
]

access_defect_lem :
    (a : AccessMutation)
    → access_defect a ≡ none
    → (all_players a.entries ≡ true) × (length a.entries ≤ max_commands)
unfolding access_defect
access_defect_lem a =
    let kind = not (one_of a.kind ("whitelist" ∷ "operators" ∷ "bans" ∷ [])) in
    let action = not (one_of a.action ("add" ∷ "remove" ∷ [])) in
    elim (Bool-cases
      (kind || action || length a.entries == 0 || ltb max_commands (length a.entries))) [
        | inl bad ↦ rw (bad, access_defect) (λ q. absurd cc)
        | inr fine ↦ elim (Bool-cases (all_players a.entries)) [
          | inr bad ↦ rw (fine, bad, access_defect) (λ q. absurd cc)
          | inl good ↦ λ q. (good, bounded kind action (length a.entries) fine)
        ]
      ]
  where
    bounded :
        (kind action : Bool) (n : ℕ)
        → kind || action || n == 0 || ltb max_commands n ≡ false
        → n ≤ max_commands
    bounded kind action n h = ground arith

-- One payload without the one that the operation names is not refused but dereferenced.
decode_panics :
    (quote : String → String) (fields : List String) (request : AccessRequest)
    → first_other field_names fields ≡ none
    → header_defect request ≡ false
    → payload_count_defect request ≡ false
    → payload_defect request ≡ none
    → decode_fleet_access_apply_request quote (some fields) (some request) ≡ none
unfolding decode_fleet_access_apply_request
decode_panics quote fields request known head one panics =
    rw (known, head, one, panics, decode_fleet_access_apply_request) refl

-- A body whose operation is "access" and whose only payload is a player action passes the checks of
-- the identities and of the number of payloads, and the decoding then panics, whatever the action is.
pub decode_fleet_access_apply_request_panics :
    (quote : String → String) (fields : List String) (request : AccessRequest) (p : PlayerAction)
    → first_other field_names fields ≡ none
    → valid_fleet_identity request.server_id ≡ true
    → valid_fleet_identity request.node_id ≡ true
    → (request.generation == 0) ≡ false
    → request.operation ≡ "access"
    → request.access ≡ none
    → request.player ≡ some p
    → decode_fleet_access_apply_request quote (some fields) (some request) ≡ none
unfolding payload_defect
decode_fleet_access_apply_request_panics quote fields request p known server node generation names
      absent there =
    decode_panics quote fields request known (rw (server, node, generation) refl)
      (rw (names, absent, there) refl) (rw (names, absent) refl)

module _ (json_text : String → String)
    (json_plain : (s : String) → Consists text_char s → Consists text_char (json_text s)) where
  -- The commands of a request: they exist, each is one text for the console, and there are not many.
  abbrev Bounded : AccessRequest → Type 0
  Bounded r =
      (commands : List (List String)) × (fleet_access_apply_commands json_text r
        ≡ some (ok commands))
      × All (IsConsole text_char) commands
      × (length commands ≤ max_commands)

  player-Bounded :
      (r : AccessRequest) (p : PlayerAction)
      → r.access ≡ none
      → r.player ≡ some p
      → player_defect p ≡ none
      → Bounded r
  unfolding fleet_access_apply_commands
  player-Bounded r p lone there fine =
      let texts = player_defect-Texts p fine in
      elim (Option-cases (player_command json_text p)) [
        | inl unknown ↦ absurd (player_command_known json_text p texts.known unknown)
        | inr (text, made) ↦ (
          rcon text ∷ [],
          rw (lone, there, made, fleet_access_apply_commands) refl,
          ((text, refl, player_command-Plain json_text json_plain p texts text made), tt),
          ground arith,
        )
      ]

  Passed-Bounded : (r : AccessRequest) → Passed r → Bounded r
  unfolding fleet_access_apply_commands
  Passed-Bounded r (Passed.player p lone there fine) = player-Bounded r p lone there fine
  Passed-Bounded r (Passed.access a there fine) =
      let (players, few) = access_defect_lem a fine in
      let same = length-access_commands a.kind a.action a.entries in
      (
        access_commands a.kind a.action a.entries,
        rw (there, fleet_access_apply_commands) refl,
        access_commands-IsConsole a.kind a.action a.entries players,
        subst (λ n. n ≤ max_commands) (sym same) few,
      )

  -- If the JSON of a text without control characters holds none either, a body that is decoded gives
  -- its commands without an error or a panic: at most 100 of them, each `rcon` with one text without a
  -- control character, so that no name, reason or announcement ends its line of the console.
  pub fleet_access_apply_commands-Bounded :
      (quote : String → String) (fields : Option (List String)) (bound : Option AccessRequest)
      (r : AccessRequest)
      → decode_fleet_access_apply_request quote fields bound ≡ some (ok r)
      → (commands : List (List String)) × (fleet_access_apply_commands json_text r
          ≡ some (ok commands))
        × All (IsConsole text_char) commands
        × (length commands ≤ max_commands)
  fleet_access_apply_commands-Bounded quote fields bound r q =
      Passed-Bounded r (decode-Passed quote fields bound r q)
