-- ===== src/Pricing/Fuel.antt =====
-- The fuel that stands for the termination of the parser of internal/service/pricing.go is enough:
-- a call needs at most four units for each token that is left.
use license_server_ai.Base.{ℕ, zero, suc, ◌+◌, ◌*◌, ◌≤◌, ◌≢◌, arith, length}
use license_server_ai.Base.Int.{ℤ, ◌+ℤ◌, ◌-ℤ◌, ◌*ℤ◌, neg_ℤ, wrap64}
use license_server_ai.Pricing.Text.{Text}
use license_server_ai.Pricing.Lexer.{
  num, ident, plus, minus, mul, div, lparen, eof, ok, out_of_fuel, next, ◌>>=◌,
}
use license_server_ai.Pricing.Parser.{
  State, close, divide, Env, variable, finish, fuel_for, parse_expr, expr_loop, parse_term,
  term_loop, parse_factor, eval_formula,
}
use license_server_ai.Pricing.Consumption.{
  Fits, Fits-bind, Fits-fuel, left, Leaves, Leaves-advance, Leaves-then, Leaves-value, Leaves-token,
  Leaves-less, divide-Fits, variable-Fits, close-Leaves, next-Fits,
}

module _ (params : Env) where
  mutual
    unfolding parse_expr expr_loop parse_term term_loop parse_factor

    -- A factor, a term and an expression take a token.
    parse_factor-Leaves :
        (f : ℕ) (s : State) → 4 * left s + 1 ≤ f → Leaves (left s) (parse_factor params f s)
    parse_factor-Leaves zero s b = let never : ⊥ = omega arith in elim never [ ]
    parse_factor-Leaves (suc f) (num x, rest) b = Leaves-token _ rest x (omega arith)
    parse_factor-Leaves (suc f) (ident x, rest) b = Leaves-advance _ rest _ (λ s h.
        Leaves-value _ (variable (params x)) (λ n. ok (n, s)) (variable-Fits (params x))
          (λ n. omega arith))
    parse_factor-Leaves (suc f) (lparen, rest) b =
        Leaves-advance _ rest (λ s. parse_expr params f s >>= λ r. close r.0 r.1)
          (λ s h.
            Leaves-then (left s) _ (parse_expr params f s) close
              (parse_expr-Leaves f s (omega arith)) (λ v s' k. close-Leaves _ v s' (omega arith)))
    parse_factor-Leaves (suc f) (minus, rest) b =
        Leaves-advance _ rest (λ s. parse_factor params f s >>= λ r. ok (wrap64 (neg_ℤ r.0), r.1))
          (λ s h.
            Leaves-then (left s) _ (parse_factor params f s) (λ n s'. ok (wrap64 (neg_ℤ n), s'))
              (parse_factor-Leaves f s (omega arith)) (λ v s' k. omega arith))
    parse_factor-Leaves (suc f) (_, rest) b = tt

    parse_term-Leaves :
        (f : ℕ) (s : State) → 4 * left s + 2 ≤ f → Leaves (left s) (parse_term params f s)
    parse_term-Leaves zero s b = let never : ⊥ = omega arith in elim never [ ]
    parse_term-Leaves (suc f) s b =
        Leaves-then (left s) (left s) (parse_factor params f s) (term_loop params f)
          (parse_factor-Leaves f s (omega arith))
          (λ v s' h.
            Leaves-less _ _ (term_loop params f v s') (omega arith)
              (term_loop-Leaves f v s' (omega arith)))

    -- A loop leaves no more than it finds.
    term_loop-Leaves :
        (f : ℕ) (v : ℤ) (s : State)
        → 4 * left s + 1 ≤ f
        → Leaves (1 + left s) (term_loop params f v s)
    term_loop-Leaves zero v s b = let never : ⊥ = omega arith in elim never [ ]
    term_loop-Leaves (suc f) v (mul, rest) b =
        Leaves-advance _ rest
          (λ s. parse_factor params f s >>= λ r. term_loop params f (wrap64 (v *ℤ r.0)) r.1)
          (λ s h.
            Leaves-then (left s) _ (parse_factor params f s)
              (λ n. term_loop params f (wrap64 (v *ℤ n))) (parse_factor-Leaves f s (omega arith))
              (λ n s' k.
                Leaves-less _ _ (term_loop params f (wrap64 (v *ℤ n)) s') (omega arith)
                  (term_loop-Leaves f (wrap64 (v *ℤ n)) s' (omega arith))))
    term_loop-Leaves (suc f) v (div, rest) b =
        Leaves-advance _ rest
          (λ s. parse_factor params f s >>= λ r. divide v r.0 >>= λ q. term_loop params f q r.1)
          (λ s h.
            Leaves-then (left s) _ (parse_factor params f s)
              (λ n s'. divide v n >>= λ q. term_loop params f q s')
              (parse_factor-Leaves f s (omega arith))
              (λ n s' k.
                Leaves-value _ (divide v n) (λ q. term_loop params f q s') (divide-Fits v n)
                  (λ q.
                    Leaves-less _ _ (term_loop params f q s') (omega arith)
                      (term_loop-Leaves f q s' (omega arith)))))
    term_loop-Leaves (suc f) v (_, rest) b = omega arith

    parse_expr-Leaves :
        (f : ℕ) (s : State) → 4 * left s + 3 ≤ f → Leaves (left s) (parse_expr params f s)
    parse_expr-Leaves zero s b = let never : ⊥ = omega arith in elim never [ ]
    parse_expr-Leaves (suc f) s b =
        Leaves-then (left s) (left s) (parse_term params f s) (expr_loop params f)
          (parse_term-Leaves f s (omega arith))
          (λ v s' h.
            Leaves-less _ _ (expr_loop params f v s') (omega arith)
              (expr_loop-Leaves f v s' (omega arith)))

    expr_loop-Leaves :
        (f : ℕ) (v : ℤ) (s : State)
        → 4 * left s + 1 ≤ f
        → Leaves (1 + left s) (expr_loop params f v s)
    expr_loop-Leaves zero v s b = let never : ⊥ = omega arith in elim never [ ]
    expr_loop-Leaves (suc f) v (plus, rest) b =
        Leaves-advance _ rest
          (λ s. parse_term params f s >>= λ r. expr_loop params f (wrap64 (v +ℤ r.0)) r.1)
          (λ s h.
            Leaves-then (left s) _ (parse_term params f s)
              (λ n. expr_loop params f (wrap64 (v +ℤ n))) (parse_term-Leaves f s (omega arith))
              (λ n s' k.
                Leaves-less _ _ (expr_loop params f (wrap64 (v +ℤ n)) s') (omega arith)
                  (expr_loop-Leaves f (wrap64 (v +ℤ n)) s' (omega arith))))
    expr_loop-Leaves (suc f) v (minus, rest) b =
        Leaves-advance _ rest
          (λ s. parse_term params f s >>= λ r. expr_loop params f (wrap64 (v -ℤ r.0)) r.1)
          (λ s h.
            Leaves-then (left s) _ (parse_term params f s)
              (λ n. expr_loop params f (wrap64 (v -ℤ n))) (parse_term-Leaves f s (omega arith))
              (λ n s' k.
                Leaves-less _ _ (expr_loop params f (wrap64 (v -ℤ n)) s') (omega arith)
                  (expr_loop-Leaves f (wrap64 (v -ℤ n)) s' (omega arith))))
    expr_loop-Leaves (suc f) v (_, rest) b = omega arith

  finish-Fits : (r : ℤ × State) → Fits (λ v. Unit) (finish r)
  unfolding finish
  finish-Fits (v, (eof, rest)) = tt
  finish-Fits (v, (_, rest)) = tt

  -- `evalFormula` comes to an end on every text, whatever the variables are: the model's fuel never
  -- runs out.
  pub eval_formula-total : (src : Text) → eval_formula params src ≢ out_of_fuel
  unfolding eval_formula
  eval_formula-total src =
      Fits-fuel (λ v. Unit) (eval_formula params src)
        (Fits-bind (λ s. left s ≤ length src) (λ v. Unit) (next src) _ (next-Fits src)
          (λ s h.
            Fits-bind (λ r. 1 + left r.1 ≤ left s) (λ v. Unit) (parse_expr params (fuel_for src) s)
              finish (parse_expr-Leaves (fuel_for src) s (omega arith)) (λ r k. finish-Fits r)))
