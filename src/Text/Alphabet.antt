-- ===== src/Text/Alphabet.antt =====
-- Which characters the texts hold that the program puts together.
use Prim.Native.Char.{code}
use Prim.Native.String.{◌++◌}
use Prim.Native.String.append.{cons, nil}
use bananagine.Prelude.{ℕ, String, Bool, true, ◌≡◌, refl, arith}
use bananagine.Text.{codes}
use bananagine.Text.Identity.{all_codes}

-- Every character of the text satisfies the test.
abbrev pub Consists : (ℕ → Bool) → String → Type 0
Consists p s = all_codes p (codes s) ≡ true

pub Consists-append :
    (p : ℕ → Bool) (s t : String) → Consists p s → Consists p t → Consists p (s ++ t)
Consists-append p String.[] t h k = rw (nil t) k
Consists-append p (String.◌∷◌ c s) t h k =
    let more : Consists p s → Consists p (s ++ t) = λ q. Consists-append p s t q k in
    rw (cons c s t) (let rest = more (ground arith) in ground arith)

pub Consists_mono :
    (p q : ℕ → Bool) (s : String)
    → ((c : ℕ) → p c ≡ true → q c ≡ true)
    → Consists p s
    → Consists q s
Consists_mono p q String.[] i h = refl
Consists_mono p q (String.◌∷◌ c s) i h =
    let (hc, hs) : (p (code c) ≡ true) × Consists p s = (ground arith, ground arith) in
    let more = Consists_mono p q s i hs in let this = i (code c) hc in ground arith
