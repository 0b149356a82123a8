-- ===== src/Fleet/Lifecycle/Console.antt =====
-- What fleetReconfigureCommands sends to the console.
use Prim.Native.String.{◌++◌}
use bananagine.Prelude.{
  ℕ, nat_eq, String, true, not, ◌||◌, ◌==◌, string_eq, List, [], ◌∷◌, ◌≡◌, refl, arith, inl, inr,
  Bool-cases, All, subst,
}
use bananagine.Map.{Map}
use bananagine.Map.Sorting.{sort_keys}
use bananagine.Service.{ok, Result-cases, ok_injective}
use bananagine.Text.{codes, is_digit}
use bananagine.Text.Strings.{has_prefix, trim_prefix}
use bananagine.Text.Alphabet.{Consists, Consists-append}
use bananagine.Text.Identity.{all_codes}
use bananagine.Fleet.Tokens.{one_of, valid_fleet_token, valid_fleet_rule_value, rule_digits}
use bananagine.Fleet.Console.{word_char, IsConsole, one_of-Consists, Consists_words}
use bananagine.Fleet.Lifecycle.{
  difficulties, gamemodes, setting_command, commands_of, fleet_reconfigure_commands,
}

valid_fleet_token-Consists :
    (value : String) (max : ℕ) → valid_fleet_token value max ≡ true → Consists word_char value
unfolding valid_fleet_token
valid_fleet_token-Consists value max h = Consists_words value (ground arith)

all_digits_words : (cs : List ℕ) → all_codes is_digit cs ≡ true → all_codes word_char cs ≡ true
all_digits_words [] h = refl
all_digits_words (c ∷ cs) h = let rest = all_digits_words cs in ground (arith, rest)

rule_digits_words : (cs : List ℕ) → rule_digits cs ≡ true → all_codes word_char cs ≡ true
rule_digits_words [] h = refl
rule_digits_words (c ∷ cs) h = let rest = all_digits_words cs in ground (arith, rest)

valid_fleet_rule_value-Consists :
    (value : String) → valid_fleet_rule_value value ≡ true → Consists word_char value
unfolding valid_fleet_rule_value
valid_fleet_rule_value-Consists value h = elim (Bool-cases (one_of value ("true" ∷ "false" ∷ []))) [
  | inl named ↦ one_of-Consists word_char value ("true" ∷ "false" ∷ []) refl named
  | inr other ↦ rule_digits_words (codes value) (ground arith)
]

-- A command of one text is as safe as what follows the words that the code writes.
console : (text : String) → Consists word_char text → IsConsole word_char ("rcon" ∷ text ∷ [])
console text h = (text, refl, h)

after :
    (words value : String)
    → Consists word_char words
    → Consists word_char value
    → IsConsole word_char ("rcon" ∷ (words ++ value) ∷ [])
after words value h k = console (words ++ value) (Consists-append word_char words value h k)

setting_command-IsConsole :
    (quote : String → String) (key value : String) (command : List String)
    → setting_command quote key value ≡ ok command
    → IsConsole word_char command
unfolding setting_command
setting_command-IsConsole quote key value command =
    let rule = trim_prefix key "FLEET_GAMERULE_" in
    elim (Bool-cases (key == "FLEET_SETTING_difficulty")) [
      | inl difficulty ↦ elim (Bool-cases (one_of value difficulties)) [
        | inr other ↦ rw (difficulty, other, setting_command) (λ q. absurd cc)
        | inl known ↦
            rw (difficulty, known, setting_command)
              (λ q. subst (IsConsole word_char) (ok_injective q) (
                after "difficulty " value refl
                  (one_of-Consists word_char value difficulties refl known)))
      ]
      | inr next ↦
          elim (Bool-cases
            (key == "FLEET_SETTING_gamemode" || key == "FLEET_SETTING_default_gamemode")) [
              | inl gamemode ↦ elim (Bool-cases (one_of value gamemodes)) [
                | inr other ↦ rw (next, gamemode, other, setting_command) (λ q. absurd cc)
                | inl known ↦
                    rw (next, gamemode, known, setting_command)
                      (λ q. subst (IsConsole word_char) (ok_injective q) (
                        after "defaultgamemode " value refl
                          (one_of-Consists word_char value gamemodes refl known)))
              ]
              | inr third ↦ elim (Bool-cases (has_prefix key "FLEET_GAMERULE_")) [
                | inr other ↦ rw (next, third, other, setting_command) (λ q. absurd cc)
                | inl gamerule ↦
                    elim (Bool-cases
                      (not (valid_fleet_token rule 64) || not (valid_fleet_rule_value value))) [
                        | inl bad ↦
                            rw (next, third, gamerule, bad, setting_command) (λ q. absurd cc)
                        | inr good ↦
                            rw (next, third, gamerule, good, setting_command)
                              (λ q. subst (IsConsole word_char) (ok_injective q) (
                                rule_console rule value
                                  (valid_fleet_token-Consists rule 64 (ground arith))
                                  (valid_fleet_rule_value-Consists value (ground arith))))
                      ]
              ]
            ]
    ]
  where
    rule_console :
        (rule v : String)
        → Consists word_char rule
        → Consists word_char v
        → IsConsole word_char ("rcon" ∷ ("gamerule " ++ rule ++ " " ++ v) ∷ [])
    rule_console rule v h k =
        after "gamerule " (rule ++ " " ++ v) refl
          (Consists-append word_char rule (" " ++ v) h (Consists-append word_char " " v refl k))

commands_of-IsConsole :
    (quote : String → String) (env : Map String String) (commands : List (List String))
    → commands_of quote env ≡ ok commands
    → All (IsConsole word_char) commands
unfolding commands_of
commands_of-IsConsole quote [] commands = λ q. subst (All (IsConsole word_char)) (ok_injective q) tt
commands_of-IsConsole quote ((key, value) ∷ rest) commands =
    elim (Result-cases (setting_command quote key value)) [
      | inr (message, bad) ↦ rw (bad, commands_of) (λ q. absurd cc)
      | inl (command, good) ↦ elim (Result-cases (commands_of quote rest)) [
        | inr (message, bad) ↦ rw (good, bad, commands_of) (λ q. absurd cc)
        | inl (more, later) ↦
            rw (good, later, commands_of)
              (λ q. subst (All (IsConsole word_char)) (ok_injective q) (
                setting_command-IsConsole quote key value command good,
                commands_of-IsConsole quote rest more later,
              ))
      ]
    ]

-- Every command that a reconfiguration is turned into is `rcon` with one text, and the text holds
-- letters, digits, `-`, `_`, `.`, `:` and spaces only: no value of the request brings a line break, a
-- quote or another character of the console into its command.
pub fleet_reconfigure_commands-IsConsole :
    (quote : String → String) (env : Map String String) (commands : List (List String))
    → fleet_reconfigure_commands quote env ≡ ok commands
    → All (IsConsole word_char) commands
unfolding fleet_reconfigure_commands
fleet_reconfigure_commands-IsConsole quote env = commands_of-IsConsole quote (sort_keys env)
