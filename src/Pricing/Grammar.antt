-- ===== src/Pricing/Grammar.antt =====
-- The formulas of internal/service/pricing.go as its comments describe them, with an independent
-- meaning: expr := term (('+'|'-') term)*, term := factor (('*'|'/') factor)*,
-- factor := number | ident | '(' expr ')' | '-' factor. Operators of one level group to the left:
-- the value so far goes along a chain of them.
use license_server_ai.Base.{ℕ, ◌≡◌, Bool, true, ◌&&◌, some, List, [], ◌∷◌, ◌++◌}
use license_server_ai.Base.Int.{ℤ, ◌+ℤ◌, ◌-ℤ◌, ◌*ℤ◌, neg_ℤ, wrap64}
use license_server_ai.Pricing.Text.{Text, is_digit, atoi}
use license_server_ai.Pricing.Lexer.{
  Token, num, ident, plus, minus, mul, div, lparen, rparen, Outcome, ok, is_ident_start,
  is_ident_part, ◌>>=◌,
}
use license_server_ai.Pricing.Parser.{Env, variable, divide}

-- A numeral is kept as it is spelled, with its value.
mutual
  pub data Expr : Type 0 where
    expr : Term → Sums → Expr

  pub data Sums : Type 0 where
    no_sum : Sums
    add sub : Term → Sums → Sums

  pub data Term : Type 0 where
    term : Factor → Products → Term

  pub data Products : Type 0 where
    no_product : Products
    times over : Factor → Products → Products

  pub data Factor : Type 0 where
    numeral : Text → ℤ → Factor
    name : Text → Factor
    group : Expr → Factor
    neg : Factor → Factor

-- The value of a formula, from left to right; the first error is the error of the whole.
module _ (params : Env) where
  unfoldable mutual
    pub value_expr : Expr → Outcome ℤ
    value_expr (expr t r) = do v ← value_term t; value_sums v r

    pub value_sums : ℤ → Sums → Outcome ℤ
    value_sums v no_sum = ok v
    value_sums v (add t r) = do n ← value_term t; value_sums (wrap64 (v +ℤ n)) r
    value_sums v (sub t r) = do n ← value_term t; value_sums (wrap64 (v -ℤ n)) r

    pub value_term : Term → Outcome ℤ
    value_term (term x r) = do v ← value_factor x; value_products v r

    pub value_products : ℤ → Products → Outcome ℤ
    value_products v no_product = ok v
    value_products v (times x r) = do n ← value_factor x; value_products (wrap64 (v *ℤ n)) r
    value_products v (over x r) = do n ← value_factor x; q ← divide v n; value_products q r

    pub value_factor : Factor → Outcome ℤ
    value_factor (numeral ds n) = ok n
    value_factor (name x) = variable (params x)
    value_factor (group e) = value_expr e
    value_factor (neg x) = do v ← value_factor x; ok (wrap64 (neg_ℤ v))

-- The tokens of a formula, each with its spelling.
pub data Lexeme : Type 0 where
  digits : Text → ℤ → Lexeme
  letters : Text → Lexeme
  symbol : ℕ → Token → Lexeme

abbrev pub Lexemes : Type 0
Lexemes = List Lexeme

abbrev pub token_of : Lexeme → Token
token_of (digits ds n) = num n
token_of (letters x) = ident x
token_of (symbol c t) = t

abbrev pub spelling : Lexeme → Text
spelling (digits ds n) = ds
spelling (letters x) = x
spelling (symbol c t) = c ∷ []

abbrev pub plus_sign : Lexeme
plus_sign = symbol b'+' plus

abbrev pub minus_sign : Lexeme
minus_sign = symbol b'-' minus

abbrev pub times_sign : Lexeme
times_sign = symbol b'*' mul

abbrev pub over_sign : Lexeme
over_sign = symbol b'/' div

abbrev pub open_paren : Lexeme
open_paren = symbol b'(' lparen

abbrev pub close_paren : Lexeme
close_paren = symbol b')' rparen

unfoldable mutual
  pub emit_expr : Expr → Lexemes
  emit_expr (expr t r) = emit_term t ++ emit_sums r

  pub emit_sums : Sums → Lexemes
  emit_sums no_sum = []
  emit_sums (add t r) = plus_sign ∷ (emit_term t ++ emit_sums r)
  emit_sums (sub t r) = minus_sign ∷ (emit_term t ++ emit_sums r)

  pub emit_term : Term → Lexemes
  emit_term (term x r) = emit_factor x ++ emit_products r

  pub emit_products : Products → Lexemes
  emit_products no_product = []
  emit_products (times x r) = times_sign ∷ (emit_factor x ++ emit_products r)
  emit_products (over x r) = over_sign ∷ (emit_factor x ++ emit_products r)

  pub emit_factor : Factor → Lexemes
  emit_factor (numeral ds n) = digits ds n ∷ []
  emit_factor (name x) = letters x ∷ []
  emit_factor (group e) = open_paren ∷ (emit_expr e ++ (close_paren ∷ []))
  emit_factor (neg x) = minus_sign ∷ emit_factor x

-- The source text: a space before each token.
unfoldable pub print : Lexemes → Text
print [] = []
print (x ∷ xs) = 32 ∷ (spelling x ++ print xs)

abbrev pub all_bytes : (ℕ → Bool) → Text → Bool
all_bytes p [] = true
all_bytes p (c ∷ cs) = p c && all_bytes p cs

-- A numeral is a run of digits in the range of `int`; a name starts with a letter or `_`.
abbrev pub IsName : Text → Type 0
IsName [] = ⊥
IsName (c ∷ cs) = (is_ident_start c ≡ true) × (all_bytes is_ident_part cs ≡ true)

abbrev pub IsNumeral : Text → ℤ → Type 0
IsNumeral [] n = ⊥
IsNumeral (c ∷ cs) n = (all_bytes is_digit (c ∷ cs) ≡ true) × (atoi (c ∷ cs) ≡ some n)

-- The numerals and the names of a formula are well spelled.
abbrev mutual
  pub IsExpr : Expr → Type 0
  IsExpr (expr t r) = IsTerm t × IsSums r

  pub IsSums : Sums → Type 0
  IsSums no_sum = Unit
  IsSums (add t r) = IsTerm t × IsSums r
  IsSums (sub t r) = IsTerm t × IsSums r

  pub IsTerm : Term → Type 0
  IsTerm (term x r) = IsFactor x × IsProducts r

  pub IsProducts : Products → Type 0
  IsProducts no_product = Unit
  IsProducts (times x r) = IsFactor x × IsProducts r
  IsProducts (over x r) = IsFactor x × IsProducts r

  pub IsFactor : Factor → Type 0
  IsFactor (numeral ds n) = IsNumeral ds n
  IsFactor (name x) = IsName x
  IsFactor (group e) = IsExpr e
  IsFactor (neg x) = IsFactor x
