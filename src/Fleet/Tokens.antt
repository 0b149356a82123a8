-- ===== src/Fleet/Tokens.antt =====
-- The texts that the routes admit. The regular expressions for names and UUIDs are written out.
use Prim.Native.String.{len}
use bananagine.Prelude.{
  ℕ, zero, suc, String, Bool, true, false, not, ◌&&◌, ◌||◌, ltb, leb, nat_eq, string_eq, ◌==◌, List,
  [], ◌∷◌, if◌then◌else◌,
}
use bananagine.Text.{codes, is_digit, is_lower, is_upper}
use bananagine.Text.Strings.{contains, has_prefix, has_suffix}
use bananagine.Text.Identity.{all_codes, token_char, is_control}

unfoldable pub one_of : String → List String → Bool
one_of value [] = false
one_of value (candidate ∷ rest) = value == candidate || one_of value rest

unfoldable pub valid_fleet_token : String → ℕ → Bool
valid_fleet_token value max =
    if value == "" || ltb max (len value) then false else all_codes token_char (codes value)

-- A sign is passed over at the start only.
abbrev pub rule_digits : List ℕ → Bool
rule_digits [] = true
rule_digits (c ∷ cs) = (c == b'-' || is_digit c) && all_codes is_digit cs

unfoldable pub valid_fleet_rule_value : String → Bool
unfolding one_of
valid_fleet_rule_value value =
    if one_of value ("true" ∷ "false" ∷ [])
    then true
    else if value == "" || ltb 11 (len value)
    then false
    else rule_digits (codes value) && not (value == "-")

-- ^[A-Za-z0-9_]{1,16}$
abbrev pub name_char : ℕ → Bool
name_char c = is_lower c || is_upper c || is_digit c || c == b'_'

unfoldable pub is_player_name : String → Bool
is_player_name value = ltb 0 (len value) && leb (len value) 16 && all_codes name_char (codes value)

abbrev pub hex_char : ℕ → Bool
hex_char c = is_digit c || leb b'a' c && leb c b'f'

-- The groups of a UUID from the digits that are left in the present one and the lengths of the next.
unfoldable pub uuid_groups : ℕ → List ℕ → List ℕ → Bool
uuid_groups zero [] [] = true
uuid_groups zero [] (c ∷ cs) = false
uuid_groups zero (n ∷ ns) [] = false
uuid_groups zero (n ∷ ns) (c ∷ cs) = c == b'-' && uuid_groups n ns cs
uuid_groups (suc n) ns [] = false
uuid_groups (suc n) ns (c ∷ cs) = hex_char c && uuid_groups n ns cs

-- ^[0-9a-f]{8}-[0-9a-f]{4}-[0-9a-f]{4}-[0-9a-f]{4}-[0-9a-f]{12}$
unfoldable pub is_uuid : String → Bool
unfolding uuid_groups
is_uuid value = uuid_groups 8 (4 ∷ 4 ∷ 4 ∷ 12 ∷ []) (codes value)

-- strings.IndexFunc(value, unicode.IsControl) < 0
unfoldable pub no_control : String → Bool
no_control value = all_codes (λ c. not (is_control c)) (codes value)

-- The characters of ContainsAny(value, "\\\r\n\x00").
abbrev pub key_char : ℕ → Bool
key_char c = not (c == 92 || c == 13 || c == 10 || c == 0)

unfoldable pub valid_fleet_object_key : String → Bool
unfolding contains has_prefix has_suffix
valid_fleet_object_key value =
    if value == ""
      || ltb 1024 (len value)
      || has_prefix value "/"
      || has_suffix value "/"
      || contains value ".."
      || not (all_codes key_char (codes value))
    then false
    else all_codes (λ c. token_char c || c == b'/') (codes value)

-- hex.DecodeString accepts capitals too; a text that reaches it here has an even length.
unfoldable pub is_hex : String → Bool
is_hex value =
    all_codes (λ c. is_digit c || leb b'a' c && leb c b'f' || leb b'A' c && leb c b'F')
      (codes value)
