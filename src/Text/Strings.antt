-- ===== src/Text/Strings.antt =====
-- strings.TrimPrefix, Contains, ReplaceAll, ToUpper and ToLower. The case functions change the
-- letters A to Z; the program compares their results with ASCII texts and builds variable names.
use Prim.Native.Char.{Char, code}
use Prim.Native.String.{◌++◌}
use bananagine.Prelude.{
  ℕ, zero, suc, ◌-◌, String, Bool, true, false, ◌||◌, nat_eq, string_eq, ◌==◌, Option, none, some,
  if◌then◌else◌,
}

-- What follows a prefix.
unfoldable pub strip_prefix : String → String → Option String
strip_prefix s String.[] = some s
strip_prefix String.[] (String.◌∷◌ d p) = none
strip_prefix (String.◌∷◌ c s) (String.◌∷◌ d p) = if code c == code d then strip_prefix s p else none

abbrev pub is_some {ℓ} : {A : Type ℓ} → Option A → Bool
is_some none = false
is_some (some _) = true

unfoldable pub trim_prefix : String → String → String
unfolding strip_prefix
trim_prefix s p = elim (strip_prefix s p) [ none ↦ s | some rest ↦ rest ]

unfoldable pub has_prefix : String → String → Bool
unfolding strip_prefix
has_prefix s p = is_some (strip_prefix s p)

unfoldable pub contains : String → String → Bool
unfolding strip_prefix
contains String.[] p = is_some (strip_prefix String.[] p)
contains (String.◌∷◌ c s) p = is_some (strip_prefix (String.◌∷◌ c s) p) || contains s p

chars : String → ℕ
chars String.[] = 0
chars (String.◌∷◌ _ s) = suc (chars s)

-- With the characters of the last match that are still to be passed over.
replace_from : String → String → ℕ → String → String
replace_from old new skip String.[] = String.[]
replace_from old new (suc skip) (String.◌∷◌ c s) = replace_from old new skip s
replace_from old new zero (String.◌∷◌ c s) =
    let matched = new ++ replace_from old new (chars old - 1) s in
    let next = String.◌∷◌ c (replace_from old new zero s) in
    if is_some (strip_prefix (String.◌∷◌ c s) old) then matched else next

-- For a text `old` that is not empty.
unfoldable pub replace_all : String → String → String → String
unfolding replace_from strip_prefix chars
replace_all s old new = replace_from old new zero s

translate : String → String → Char → Char
translate String.[] to c = c
translate (String.◌∷◌ x from) String.[] c = c
translate (String.◌∷◌ x from) (String.◌∷◌ y to) c =
    if code x == code c then y else translate from to c

map_chars : (Char → Char) → String → String
map_chars f String.[] = String.[]
map_chars f (String.◌∷◌ c s) = String.◌∷◌ (f c) (map_chars f s)

abbrev capitals : String
capitals = "ABCDEFGHIJKLMNOPQRSTUVWXYZ"

abbrev smalls : String
smalls = "abcdefghijklmnopqrstuvwxyz"

unfoldable pub to_upper : String → String
unfolding map_chars translate
to_upper s = map_chars (translate smalls capitals) s

unfoldable pub to_lower : String → String
unfolding map_chars translate
to_lower s = map_chars (translate capitals smalls) s

unfoldable pub has_suffix : String → String → Bool
has_suffix String.[] suffix = suffix == ""
has_suffix (String.◌∷◌ c s) suffix = String.◌∷◌ c s == suffix || has_suffix s suffix
