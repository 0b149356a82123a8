-- ===== src/Text.antt =====
-- What the program uses of Go's packages strings, unicode and strconv. A text is a list of Unicode
-- code points; Go's byte strings that are not UTF-8 are not modelled.
pub mod Scan
pub mod Decimal
pub mod Strings
pub mod Identity
pub mod Alphabet
pub mod Split
mod Tests
use Prim.Native.Char.{Char, code}
use bananagine.Prelude.{
  ℕ, String, Bool, true, false, ◌&&◌, ◌||◌, nat_eq, ◌==◌, leb, List, [], ◌∷◌, if◌then◌else◌, ◌≡◌,
  refl,
}

abbrev pub codes : String → List ℕ
codes String.[] = []
codes (String.◌∷◌ c s) = code c ∷ codes s

-- unicode.IsSpace.
unfoldable pub is_space : ℕ → Bool
is_space c =
    leb 9 c && leb c 13
    || c == 32
    || c == 0x85
    || c == 0xa0
    || c == 0x1680
    || leb 0x2000 c && leb c 0x200a
    || c == 0x2028
    || c == 0x2029
    || c == 0x202f
    || c == 0x205f
    || c == 0x3000

abbrev pub is_digit : ℕ → Bool
is_digit c = leb b'0' c && leb c b'9'

abbrev pub is_lower : ℕ → Bool
is_lower c = leb b'a' c && leb c b'z'

abbrev pub is_upper : ℕ → Bool
is_upper c = leb b'A' c && leb c b'Z'

-- strings.TrimSpace: leading space goes, and a space goes if only spaces follow it.
pub trim_left : String → String
unfolding is_space
trim_left String.[] = String.[]
trim_left (String.◌∷◌ c s) =
    let rest = trim_left s in if is_space (code c) then rest else String.◌∷◌ c s

abbrev is_empty : String → Bool
is_empty String.[] = true
is_empty (String.◌∷◌ _ _) = false

pub trim_right : String → String
unfolding is_space
trim_right String.[] = String.[]
trim_right (String.◌∷◌ c s) =
    let rest = trim_right s in
    if is_space (code c) && is_empty rest then String.[] else String.◌∷◌ c rest

unfoldable pub trim_space : String → String
unfolding trim_left trim_right
trim_space s = trim_right (trim_left s)
