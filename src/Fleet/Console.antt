-- ===== src/Fleet/Console.antt =====
-- The commands that reach the console of a container: `rcon` with one text, and what the text holds.
use bananagine.Prelude.{
  ℕ, nat_eq, String, Bool, true, not, ◌||◌, ◌&&◌, ◌==◌, string_eq, List, [], ◌∷◌, ◌≡◌, arith,
  eq_iff, subst, sym, inl, inr, Bool-cases,
}
use bananagine.Text.{codes}
use bananagine.Text.Alphabet.{Consists, Consists_mono}
use bananagine.Text.Identity.{all_codes, token_char, is_control}
use bananagine.Fleet.Tokens.{one_of}

-- A token's characters and the space.
abbrev pub word_char : ℕ → Bool
word_char c = token_char c || c == b' '

abbrev pub text_char : ℕ → Bool
text_char c = not (is_control c)

-- One command of the console, whose text consists of the characters.
abbrev pub IsConsole : (ℕ → Bool) → List String → Type 0
IsConsole p command = (text : String) × (command ≡ "rcon" ∷ text ∷ []) × Consists p text

-- Each of the texts consists of the characters.
abbrev pub all_consist : (ℕ → Bool) → List String → Bool
all_consist p [] = true
all_consist p (t ∷ ts) = all_codes p (codes t) && all_consist p ts

pub one_of-Consists :
    (p : ℕ → Bool) (value : String) (candidates : List String)
    → all_consist p candidates ≡ true
    → one_of value candidates ≡ true
    → Consists p value
unfolding one_of
one_of-Consists p value [] known h = absurd cc
one_of-Consists p value (candidate ∷ rest) known h = elim (Bool-cases (value == candidate)) [
  | inl same ↦
      let equal : value ≡ candidate = ground (arith, eq_iff value candidate) in
      subst (λ t. Consists p t) (sym equal) (ground arith)
  | inr other ↦ one_of-Consists p value rest (ground arith) (ground arith)
]

pub Consists_words : (s : String) → Consists token_char s → Consists word_char s
Consists_words s h = Consists_mono token_char word_char s (λ c t. ground arith) h
