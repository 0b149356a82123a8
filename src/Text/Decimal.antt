-- ===== src/Text/Decimal.antt =====
-- fmt.Sprintf("%d", n), and the texts that the program builds around it.
use Prim.Native.String.{◌++◌}
use bananagine.Prelude.{
  ℕ, zero, suc, ◌/◌, ◌%◌, ltb, nat_eq, String, ℤ, pos, negsuc, ◌==◌, if◌then◌else◌,
}

abbrev digit : ℕ → String
digit n =
    if n == 0
    then "0"
    else if n == 1
    then "1"
    else if n == 2
    then "2"
    else if n == 3
    then "3"
    else if n == 4
    then "4"
    else if n == 5
    then "5"
    else if n == 6
    then "6"
    else if n == 7
    then "7"
    else if n == 8
    then "8"
    else "9"

-- With `n` as fuel: each round divides by ten.
decimal_digits : ℕ → ℕ → String
decimal_digits zero n = digit (n % 10)
decimal_digits (suc fuel) n =
    let more = decimal_digits fuel (n / 10) ++ digit (n % 10) in if ltb n 10 then digit n else more

unfoldable pub decimal : ℕ → String
unfolding decimal_digits
decimal n = decimal_digits n n

unfoldable pub decimal_int : ℤ → String
unfolding decimal
decimal_int (pos n) = decimal n
decimal_int (negsuc n) = "-" ++ decimal (suc n)
