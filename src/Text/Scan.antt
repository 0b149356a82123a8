-- ===== src/Text/Scan.antt =====
-- fmt.Sscanf(s, "%d-%d", &start, &end): blanks, an optional sign and decimal digits, which must fit
-- in 64 bits; a newline is an error, and what follows the second number is not read.
use bananagine.Prelude.{
  ℕ, ◌+◌, ◌*◌, ◌-◌, ◌^◌, ltb, leb, nat_eq, String, ℤ, pos, negsuc, Bool, true, false, ◌==◌, Option,
  none, some, List, [], ◌∷◌, if◌then◌else◌,
}
use bananagine.Text.{codes, is_space, is_digit}

-- SkipSpace; none at a newline.
skip_space : List ℕ → Option (List ℕ)
unfolding is_space
skip_space [] = some []
skip_space (c ∷ cs) =
    let rest = skip_space cs in if c == 10 then none else if is_space c then rest else some (c ∷ cs)

-- The value of the digits in front, and what follows them.
digits : ℕ → List ℕ → ℕ × List ℕ
digits acc [] = (acc, [])
digits acc (c ∷ cs) =
    let more = digits (acc * 10 + (c - b'0')) cs in if is_digit c then more else (acc, c ∷ cs)

-- At least one digit.
number : List ℕ → Option (ℕ × List ℕ)
unfolding digits
number [] = none
number (c ∷ cs) = if is_digit c then some (digits 0 (c ∷ cs)) else none

-- strconv.ParseInt(tok, 10, 64).
in_range : Bool → ℕ × List ℕ → Option (ℤ × List ℕ)
in_range true (n, rest) =
    if n == 0
    then some (pos 0, rest)
    else if leb n (2 ^ 63)
    then some (negsuc (n - 1), rest)
    else none
in_range false (n, rest) = if ltb n (2 ^ 63) then some (pos n, rest) else none

abbrev bind {ℓ κ} : {A : Type ℓ} {B : Type κ} → Option A → (A → Option B) → Option B
bind none f = none
bind (some a) f = f a

signed : List ℕ → Option (ℤ × List ℕ)
unfolding number in_range
signed [] = none
signed (c ∷ cs) =
    if c == b'-'
    then bind (number cs) (in_range true)
    else bind (number (if c == b'+' then cs else c ∷ cs)) (in_range false)

-- The verb %d.
verb_d : List ℕ → Option (ℤ × List ℕ)
unfolding skip_space signed
verb_d cs = bind (skip_space cs) signed

literal_dash : List ℕ → Option (List ℕ)
literal_dash [] = none
literal_dash (c ∷ cs) = if c == b'-' then some cs else none

unfoldable pub scan_range : String → Option (ℤ × ℤ)
unfolding verb_d literal_dash
scan_range s = bind (verb_d (codes s)) (λ (start, rest).
    bind (literal_dash rest) (λ rest'. bind (verb_d rest') (λ (end, _). some (start, end))))
