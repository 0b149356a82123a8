-- ===== src/Text/Split.antt =====
-- strings.Split, Cut, LastIndex, Fields, Trim and TrimSuffix, at separators of one character.
use Prim.Native.Char.{code}
use Prim.Native.String.{◌++◌}
use bananagine.Prelude.{
  ℕ, nat_eq, String, string_eq, Bool, not, ◌&&◌, ◌==◌, Option, none, some, List, [], ◌∷◌,
  if◌then◌else◌,
}
use bananagine.Text.{is_space}

-- strings.Split at a separator of one character.
unfoldable pub split_at : ℕ → String → List String
split_at separator String.[] = "" ∷ []
split_at separator (String.◌∷◌ c s) =
    let rest = split_at separator s in
    if code c == separator
    then "" ∷ rest
    else (elim rest [ [] ↦ String.◌∷◌ c String.[] ∷ [] | first ∷ more ↦ String.◌∷◌ c first ∷ more ])

-- strings.SplitN into two, none where the separator is missing.
unfoldable pub cut_at : ℕ → String → Option (String × String)
cut_at separator String.[] = none
cut_at separator (String.◌∷◌ c s) =
    let rest = cut_at separator s in
    if code c == separator
    then some ("", s)
    else (elim rest [ none ↦ none | some (before, after) ↦ some (String.◌∷◌ c before, after) ])

-- What follows the last separator, none without one.
unfoldable pub after_last : ℕ → String → Option String
after_last separator String.[] = none
after_last separator (String.◌∷◌ c s) = elim (after_last separator s) [
  | some rest ↦ some rest
  | none ↦ if code c == separator then some s else none
]

-- strings.TrimSuffix of one character.
unfoldable pub trim_last : ℕ → String → String
trim_last last String.[] = String.[]
trim_last last (String.◌∷◌ c s) =
    let rest = trim_last last s in
    if code c == last && s == "" then String.[] else String.◌∷◌ c rest

-- The last of strings.Fields, with the field that is being read and the last one that was read.
unfoldable pub last_field_from : String → Option String → String → Option String
unfolding is_space
last_field_from current last String.[] = if current == "" then last else some current
last_field_from current last (String.◌∷◌ c s) =
    let space = is_space (code c) in
    last_field_from (if space then "" else current ++ String.◌∷◌ c String.[])
      (if space && not (current == "") then some current else last) s

unfoldable pub last_field : String → Option String
unfolding last_field_from
last_field s = last_field_from "" none s

-- strings.Trim with a set of characters.
unfoldable pub trim_left_of : (ℕ → Bool) → String → String
trim_left_of p String.[] = String.[]
trim_left_of p (String.◌∷◌ c s) =
    let rest = trim_left_of p s in if p (code c) then rest else String.◌∷◌ c s

unfoldable pub trim_right_of : (ℕ → Bool) → String → String
trim_right_of p String.[] = String.[]
trim_right_of p (String.◌∷◌ c s) =
    let rest = trim_right_of p s in
    if p (code c) && rest == "" then String.[] else String.◌∷◌ c rest
