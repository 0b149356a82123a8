-- ===== src/Fleet/Access/Commands.antt =====
-- What fleetAccessApplyCommands makes of a request that was admitted.
use Prim.Native.String.{◌++◌}
use bananagine.Prelude.{
  nat_eq, String, Bool, true, false, ◌||◌, ◌==◌, string_eq, Option, none, some, List, [], ◌∷◌, suc,
  ◌≡◌, ◌≢◌, ap, refl, arith, if◌then◌else◌, All, some_injective, subst, length,
}
use bananagine.Text.Alphabet.{Consists, Consists-append}
use bananagine.Fleet.Tokens.{one_of}
use bananagine.Fleet.Console.{text_char, IsConsole}
use bananagine.Fleet.Access.Validation.{both, valid_player-Consists, Texts}
use bananagine.Fleet.Access.{
  PlayerIdentity, PlayerAction, valid_player, all_players, access_verb, access_commands,
  fleet_optional_reason, name_of_target, player_command, targeted, global,
}

-- Either branch, each with what its test says.
choose :
    {A : Type 0} (P : A → Type 0) (c : Bool) (a b : A)
    → (c ≡ true → P a)
    → (c ≡ false → P b)
    → P (if c then a else b)
choose P true a b h k = h refl
choose P false a b h k = k refl

access_verb-Consists : (kind action : String) → Consists text_char (access_verb kind action)
unfolding access_verb
access_verb-Consists kind action =
    let P = Consists text_char in
    choose P (kind == "whitelist") _ _ (λ k. choose P (action == "add") _ _ (λ a. refl) (λ a. refl))
      (λ k.
        choose P (kind == "operators") _ _
          (λ o. choose P (action == "add") _ _ (λ a. refl) (λ a. refl))
          (λ o.
            choose P (kind == "bans") _ _
              (λ b. choose P (action == "add") _ _ (λ a. refl) (λ a. refl)) (λ b. refl)))

pub access_commands-IsConsole :
    (kind action : String) (entries : List PlayerIdentity)
    → all_players entries ≡ true
    → All (IsConsole text_char) (access_commands kind action entries)
unfolding access_commands all_players
access_commands-IsConsole kind action [] h = tt
access_commands-IsConsole kind action (entry ∷ rest) h =
    let (valid, others) = both (valid_player entry) (all_players rest) h in
    let verb = access_verb kind action in
    let named =
      Consists-append text_char verb entry.name (access_verb-Consists kind action)
        (valid_player-Consists entry valid) in
    ((verb ++ entry.name, refl, named), access_commands-IsConsole kind action rest others)

pub length-access_commands :
    (kind action : String) (entries : List PlayerIdentity)
    → length (access_commands kind action entries) ≡ length entries
unfolding access_commands
length-access_commands kind action [] = refl
length-access_commands kind action (entry ∷ rest) =
    ap (λ n. suc n) (length-access_commands kind action rest)

-- The text, if there is one, consists of the characters.
abbrev pub Plain : Option String → Type 0
Plain o = (text : String) → o ≡ some text → Consists text_char text

join :
    (words value : String)
    → Consists text_char words
    → Consists text_char value
    → Plain (some (words ++ value))
join words value h k text same =
    subst (λ t. Consists text_char t) (some_injective same)
      (Consists-append text_char words value h k)

either : (c : Bool) (a b : Option String) → Plain a → Plain b → Plain (if c then a else b)
either true a b h k = h
either false a b h k = k

fleet_optional_reason-Consists :
    (message : String)
    → Consists text_char message
    → Consists text_char (fleet_optional_reason message)
unfolding fleet_optional_reason
fleet_optional_reason-Consists message h =
    choose (Consists text_char) (message == "") "" (" " ++ message) (λ e. refl)
      (λ e. Consists-append text_char " " message refl h)

module _ (json_text : String → String) where
  pub player_command_known :
      (p : PlayerAction)
      → one_of p.action targeted || one_of p.action global ≡ true
      → player_command json_text p ≢ none
  unfolding player_command one_of
  player_command_known p h q = ground arith

module _ (json_text : String → String)
    (json_plain : (s : String) → Consists text_char s → Consists text_char (json_text s)) where
  pub player_command-Plain : (p : PlayerAction) → Texts p → Plain (player_command json_text p)
  unfolding player_command
  player_command-Plain p t =
      let P = text_char in
      let target = name_of_target p.target in
      let reason = fleet_optional_reason p.reason_message in
      let why = fleet_optional_reason-Consists p.reason_message t.reason in
      let reasoned = Consists-append P target reason t.target why in
      let spaced = Consists-append P " " target refl t.target in
      let valued = Consists-append P p.value (" " ++ target) t.value spaced in
      let announce =
        either (p.action == "announce") _ none
          (join "tellraw @a " (json_text p.value) refl (json_plain p.value t.value))
          (λ x q. absurd cc) in
      let weather =
        either (p.action == "weather") _ _ (join "weather " p.value refl t.value) announce in
      let time = either (p.action == "time") _ _ (join "time set " p.value refl t.value) weather in
      let gamemode =
        either (p.action == "gamemode") _ _
          (join "gamemode " (p.value ++ " " ++ target) refl valued) time in
      let deop = either (p.action == "deop") _ _ (join "deop " target refl t.target) gamemode in
      let op = either (p.action == "op") _ _ (join "op " target refl t.target) deop in
      let pardon = either (p.action == "pardon") _ _ (join "pardon " target refl t.target) op in
      let ban =
        either (p.action == "ban") _ _ (join "ban " (target ++ reason) refl reasoned) pardon in
      either (p.action == "kick") _ _ (join "kick " (target ++ reason) refl reasoned) ban
