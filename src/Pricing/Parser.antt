-- ===== src/Pricing/Parser.antt =====
-- internal/service/pricing.go, `parser` and `evalFormula`: recursive descent that computes the value
-- as it reads. A state is the current token and what the lexer has left.
use license_server_ai.Base.{ℕ, zero, suc, ◌+◌, ◌*◌, Option, none, some, if◌then◌else◌, length}
use license_server_ai.Base.Int.{ℤ, pos, ◌+ℤ◌, ◌-ℤ◌, ◌*ℤ◌, neg_ℤ, quot_ℤ, eqb_ℤ, wrap64}
use license_server_ai.Pricing.Text.{Text}
use license_server_ai.Pricing.Lexer.{
  Token, num, ident, plus, minus, mul, div, lparen, rparen, eof, Outcome, ok, failed, out_of_fuel,
  unknown_variable, not_integer, missing_paren, unexpected_token, trailing, division_by_zero, next,
  ◌>>=◌,
}

abbrev pub State : Type 0
State = Token × Text

-- `advance`, on what the lexer has left.
abbrev pub advance : Text → Outcome State
advance rest = next rest

unfoldable pub close : ℤ → State → Outcome (ℤ × State)
close v (rparen, rest) = do s ← advance rest; ok (v, s)
close v _ = failed missing_paren

unfoldable pub divide : ℤ → ℤ → Outcome ℤ
divide v r = if eqb_ℤ r (pos 0) then failed division_by_zero else ok (wrap64 (quot_ℤ v r))

-- A variable's value: `none` is a missing key, `some none` a value that is no integer.
abbrev pub Env : Type 0
Env = Text → Option (Option ℤ)

abbrev pub variable : Option (Option ℤ) → Outcome ℤ
variable none = failed unknown_variable
variable (some none) = failed not_integer
variable (some (some n)) = ok n

unfoldable pub finish : ℤ × State → Outcome ℤ
finish (v, (eof, rest)) = ok v
finish _ = failed trailing

-- Four calls for each byte, and four for the end, are enough: see `Fuel`.
abbrev pub fuel_for : Text → ℕ
fuel_for src = 4 * length src + 8

module _ (params : Env) where
  -- What a call leaves is no structural part of its input: each call costs a unit of fuel.
  unfoldable mutual
    pub parse_expr : ℕ → State → Outcome (ℤ × State)
    parse_expr zero s = out_of_fuel
    parse_expr (suc f) s = do (v, s') ← parse_term f s; expr_loop f v s'

    pub expr_loop : ℕ → ℤ → State → Outcome (ℤ × State)
    expr_loop zero v s = out_of_fuel
    expr_loop (suc f) v (plus, rest) = do
      s ← advance rest
      (r, s') ← parse_term f s
      expr_loop f (wrap64 (v +ℤ r)) s'
    expr_loop (suc f) v (minus, rest) = do
      s ← advance rest
      (r, s') ← parse_term f s
      expr_loop f (wrap64 (v -ℤ r)) s'
    expr_loop (suc f) v s = ok (v, s)

    pub parse_term : ℕ → State → Outcome (ℤ × State)
    parse_term zero s = out_of_fuel
    parse_term (suc f) s = do (v, s') ← parse_factor f s; term_loop f v s'

    pub term_loop : ℕ → ℤ → State → Outcome (ℤ × State)
    term_loop zero v s = out_of_fuel
    term_loop (suc f) v (mul, rest) = do
      s ← advance rest
      (r, s') ← parse_factor f s
      term_loop f (wrap64 (v *ℤ r)) s'
    term_loop (suc f) v (div, rest) = do
      s ← advance rest
      (r, s') ← parse_factor f s
      q ← divide v r
      term_loop f q s'
    term_loop (suc f) v s = ok (v, s)

    pub parse_factor : ℕ → State → Outcome (ℤ × State)
    parse_factor zero s = out_of_fuel
    parse_factor (suc f) (num n, rest) = do s ← advance rest; ok (n, s)
    parse_factor (suc f) (ident name, rest) = do
      s ← advance rest
      n ← variable (params name)
      ok (n, s)
    parse_factor (suc f) (lparen, rest) = do s ← advance rest; (v, s') ← parse_expr f s; close v s'
    parse_factor (suc f) (minus, rest) = do
      s ← advance rest
      (v, s') ← parse_factor f s
      ok (wrap64 (neg_ℤ v), s')
    parse_factor (suc f) s = failed unexpected_token

  -- `evalFormula`.
  unfoldable pub eval_formula : Text → Outcome ℤ
  unfolding parse_expr expr_loop parse_term term_loop parse_factor finish
  eval_formula src = do s ← next src; r ← parse_expr (fuel_for src) s; finish r
