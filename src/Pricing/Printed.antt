-- ===== src/Pricing/Printed.antt =====
-- Printed formulas of internal/service/pricing.go as the parser sees them: the states in front of
-- printed tokens, and what may follow a term or an expression.
use license_server_ai.Base.{◌≡◌, refl, Bool, true, false, [], ◌∷◌, ◌++◌}
use license_server_ai.Pricing.Text.{Text, is_space}
use license_server_ai.Pricing.Lexer
use license_server_ai.Pricing.Lexer.{
  Token, num, ident, plus, minus, mul, div, lparen, rparen, eof, Outcome, ok, failed, out_of_fuel,
  next, ◌>>=◌,
}
use license_server_ai.Pricing.Parser.{State}
use license_server_ai.Pricing.Grammar.{
  Expr, Sums, Term, Products, Factor, expr, no_sum, add, sub, term, no_product, times, over,
  numeral, name, group, neg, Lexeme, Lexemes, token_of, close_paren, emit_expr, emit_sums,
  emit_term, emit_products, emit_factor, print, IsExpr, IsSums, IsTerm, IsProducts, IsFactor,
}
use license_server_ai.Pricing.LexerLaws.{IsLexeme, next-print, next-nil}

abbrev pub first_token : Lexemes → Token
first_token [] = eof
first_token (x ∷ xs) = token_of x

abbrev pub text_after : Lexemes → Text
text_after [] = []
text_after (x ∷ xs) = print xs

-- The parser's state in front of printed tokens.
abbrev pub at : Lexemes → State
at xs = (first_token xs, text_after xs)

abbrev pub All : (Lexeme → Type 0) → Lexemes → Type 0
All P [] = Unit
All P (x ∷ xs) = P x × All P xs

abbrev pub Valid : Lexemes → Type 0
Valid = All IsLexeme

pub advance-at : (xs : Lexemes) → Valid xs → next (print xs) ≡ ok (at xs)
unfolding print
advance-at [] h = next-nil
advance-at (x ∷ xs) h = next-print x xs h.0

-- What may follow a term, and an expression: another operator would belong to it.
abbrev pub ends_term : Token → Bool
ends_term mul = false
ends_term div = false
ends_term _ = true

abbrev pub ends_expr : Token → Bool
ends_expr plus = false
ends_expr minus = false
ends_expr t = ends_term t

-- Printed pieces consist of lexemes.
pub Valid-append : (xs ys : Lexemes) → Valid xs → Valid ys → Valid (xs ++ ys)
Valid-append [] ys h k = k
Valid-append (x ∷ xs) ys h k = (h.0, Valid-append xs ys h.1 k)

pub close_paren-IsLexeme : IsLexeme close_paren
unfolding Lexer.symbol is_space
close_paren-IsLexeme = (refl, refl)

mutual
  unfolding emit_expr emit_sums emit_term emit_products emit_factor Lexer.symbol is_space

  pub emit_expr-Valid : (e : Expr) → IsExpr e → Valid (emit_expr e)
  emit_expr-Valid (expr t r) h =
      Valid-append (emit_term t) (emit_sums r) (emit_term-Valid t h.0) (emit_sums-Valid r h.1)

  pub emit_sums-Valid : (r : Sums) → IsSums r → Valid (emit_sums r)
  emit_sums-Valid no_sum h = tt
  emit_sums-Valid (add t r) h = (
    (refl, refl),
    Valid-append (emit_term t) (emit_sums r) (emit_term-Valid t h.0) (emit_sums-Valid r h.1),
  )
  emit_sums-Valid (sub t r) h = (
    (refl, refl),
    Valid-append (emit_term t) (emit_sums r) (emit_term-Valid t h.0) (emit_sums-Valid r h.1),
  )

  pub emit_term-Valid : (t : Term) → IsTerm t → Valid (emit_term t)
  emit_term-Valid (term x r) h =
      Valid-append (emit_factor x) (emit_products r) (emit_factor-Valid x h.0)
        (emit_products-Valid r h.1)

  pub emit_products-Valid : (r : Products) → IsProducts r → Valid (emit_products r)
  emit_products-Valid no_product h = tt
  emit_products-Valid (times x r) h = (
    (refl, refl),
    Valid-append (emit_factor x) (emit_products r) (emit_factor-Valid x h.0)
        (emit_products-Valid r h.1),
  )
  emit_products-Valid (over x r) h = (
    (refl, refl),
    Valid-append (emit_factor x) (emit_products r) (emit_factor-Valid x h.0)
        (emit_products-Valid r h.1),
  )

  pub emit_factor-Valid : (x : Factor) → IsFactor x → Valid (emit_factor x)
  emit_factor-Valid (numeral ds n) h = (h, tt)
  emit_factor-Valid (name x) h = (h, tt)
  emit_factor-Valid (group e) h = (
    (refl, refl),
    Valid-append (emit_expr e) (close_paren ∷ []) (emit_expr-Valid e h) ((refl, refl), tt),
  )
  emit_factor-Valid (neg x) h = ((refl, refl), emit_factor-Valid x h)
