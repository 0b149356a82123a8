-- ===== src/Text/Identity.antt =====
-- pulp-cell/recreate_core.go and pulp-cell/fleet_lifecycle_routes.go: the identities and tokens that
-- the routes admit.
use Prim.Native.String.{len}
use bananagine.Prelude.{
  ℕ, String, Bool, true, false, not, ◌&&◌, ◌||◌, ltb, leb, nat_eq, string_eq, ◌==◌, List, [], ◌∷◌,
  if◌then◌else◌,
}
use bananagine.Text.{codes, is_digit, is_lower, is_upper, trim_space}
use bananagine.Text.Strings.{contains}

abbrev pub token_char : ℕ → Bool
token_char c =
    is_lower c || is_upper c || is_digit c || c == b'-' || c == b'_' || c == b'.' || c == b':'

abbrev pub all_codes : (ℕ → Bool) → List ℕ → Bool
all_codes p [] = true
all_codes p (c ∷ cs) = p c && all_codes p cs

-- `len` counts bytes.
unfoldable pub valid_recreate_token : String → Bool
valid_recreate_token value =
    if len value == 0 || ltb 256 (len value) then false else all_codes token_char (codes value)

-- The characters of ContainsAny(value, "/\\\r\n\x00").
abbrev pub path_char : ℕ → Bool
path_char c = c == b'/' || c == 92 || c == 13 || c == 10 || c == 0

-- unicode.IsControl.
abbrev pub is_control : ℕ → Bool
is_control c = ltb c 32 || leb 0x7f c && ltb c 0xa0

unfoldable pub valid_fleet_identity : String → Bool
unfolding trim_space contains
valid_fleet_identity value =
    ltb 0 (len value)
    && leb (len value) 256
    && value == trim_space value
    && not (contains value "..")
    && all_codes (λ c. not (path_char c)) (codes value)
    && all_codes (λ c. not (is_control c)) (codes value)

unfoldable pub valid_fleet_effect_identity : String → Bool
unfolding trim_space
valid_fleet_effect_identity value =
    ltb 0 (len value)
    && leb (len value) 256
    && value == trim_space value
    && all_codes (λ c. not (is_control c)) (codes value)
