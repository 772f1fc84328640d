-- ===== src/Pricing/Lexer.antt =====
-- internal/service/pricing.go, `lexer`: the state is what is left of the source, `src[pos:]`.
use license_server_ai.Base.{
  ℕ, Bool, ◌&&◌, ◌||◌, Option, none, some, [], ◌∷◌, if◌then◌else◌, leb, ◌==◌,
}
use license_server_ai.Base.Int.{ℤ}
use license_server_ai.Pricing.Text.{Text, is_digit, skip_spaces, atoi}

pub data Token : Type 0 where
  num : ℤ → Token
  ident : Text → Token
  plus minus mul div lparen rparen eof : Token

-- The errors by their message; `out_of_fuel` has no counterpart in the program.
pub data FormulaError : Type 0 where
  illegal_char number_range : FormulaError
  unknown_variable not_integer : FormulaError
  missing_paren unexpected_token trailing division_by_zero : FormulaError

pub data Outcome {ℓ} (A : Type ℓ) : Type ℓ where
  ok : A → Outcome A
  failed : FormulaError → Outcome A
  out_of_fuel : Outcome A

infixl 5 ◌>>=◌
abbrev pub ◌>>=◌ {ℓ κ} : {A : Type ℓ} {B : Type κ} → Outcome A → (A → Outcome B) → Outcome B
ok a >>= f = f a
failed e >>= f = failed e
out_of_fuel >>= f = out_of_fuel

unfoldable pub is_ident_start : ℕ → Bool
is_ident_start c = (c == b'_') || (leb b'a' c && leb c b'z') || (leb b'A' c && leb c b'Z')

unfoldable pub is_ident_part : ℕ → Bool
unfolding is_ident_start
is_ident_part c = is_ident_start c || is_digit c

-- The longest prefix of bytes that pass the test, and the rest.
unfoldable pub span : (ℕ → Bool) → Text → Text × Text
span p [] = ([], [])
span p (c ∷ cs) = let (taken, rest) = span p cs in if p c then (c ∷ taken, rest) else ([], c ∷ cs)

abbrev pub number_token : Text → Option ℤ → Outcome (Token × Text)
number_token rest none = failed number_range
number_token rest (some n) = ok (num n, rest)

-- What becomes of a run of digits, or of a name, and of the rest.
unfoldable pub number_word : Text × Text → Outcome (Token × Text)
number_word (ds, rest) = number_token rest (atoi ds)

unfoldable pub name_word : Text × Text → Outcome (Token × Text)
name_word (name, rest) = ok (ident name, rest)

-- The `switch` on the six one-byte tokens.
unfoldable pub symbol : ℕ → Option Token
symbol c =
    if c == b'+'
    then some plus
    else if c == b'-'
    then some minus
    else if c == b'*'
    then some mul
    else if c == b'/'
    then some div
    else if c == b'('
    then some lparen
    else if c == b')'
    then some rparen
    else none

unfoldable pub word : ℕ → Text → Outcome (Token × Text)
word c cs =
    if is_digit c
    then number_word (span is_digit (c ∷ cs))
    else if is_ident_start c
    then name_word (span is_ident_part (c ∷ cs))
    else failed illegal_char

unfoldable pub lex_from : Text → Outcome (Token × Text)
lex_from [] = ok (eof, [])
lex_from (c ∷ cs) = elim (symbol c) [ some t ↦ ok (t, cs) | none ↦ word c cs ]

-- `next`.
unfoldable pub next : Text → Outcome (Token × Text)
next src = lex_from (skip_spaces src)
