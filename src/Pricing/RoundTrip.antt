-- ===== src/Pricing/RoundTrip.antt =====
-- The evaluator of internal/service/pricing.go gives a printed formula its value.
use license_server_ai.Base.{
  ℕ, zero, suc, ◌+◌, ◌*◌, ◌≤◌, ◌≡◌, refl, sym, true, [], ◌∷◌, ◌++◌, arith, length, length-append,
}
use mathlib.Core.List.{append_assoc, append-nil}
use license_server_ai.Base.Int.{ℤ, ◌+ℤ◌, ◌-ℤ◌, ◌*ℤ◌, neg_ℤ, wrap64}
use license_server_ai.Pricing.Text.{Text}
use license_server_ai.Pricing.Lexer.{Token, Outcome, ok, failed, out_of_fuel, ◌>>=◌}
use license_server_ai.Pricing.Parser.{
  State, advance, close, divide, Env, variable, finish, fuel_for, parse_expr, expr_loop, parse_term,
  term_loop, parse_factor, eval_formula,
}
use license_server_ai.Pricing.Grammar.{
  Expr, Sums, Term, Products, Factor, expr, no_sum, add, sub, term, no_product, times, over,
  numeral, name, group, neg, value_expr, value_sums, value_term, value_products, value_factor,
  Lexemes, spelling, close_paren, emit_expr, emit_sums, emit_term, emit_products, emit_factor,
  print, IsExpr, IsSums, IsTerm, IsProducts, IsFactor,
}
use license_server_ai.Pricing.Printed.{
  at, Valid, advance-at, ends_term, ends_expr, first_token, Valid-append, emit_expr-Valid,
  emit_sums-Valid, emit_term-Valid, emit_products-Valid, emit_factor-Valid, close_paren-IsLexeme,
}

-- The call gives the value, or its error, and leaves the parser in the state.
abbrev Reads : Outcome (ℤ × State) → Outcome ℤ → State → Type 0
Reads m v s = m ≡ (v >>= λ n. ok (n, s))

Reads-bind :
    (m : Outcome (ℤ × State)) (v : Outcome ℤ) (s : State) (k : ℤ → State → Outcome (ℤ × State))
    (w : ℤ → Outcome ℤ) (t : State)
    → Reads m v s
    → ((n : ℤ) → Reads (k n s) (w n) t)
    → Reads (m >>= λ r. k r.0 r.1) (v >>= w) t
Reads-bind m (ok n) s k w t h each = rw h (each n)
Reads-bind m (failed e) s k w t h each = rw h refl
Reads-bind m out_of_fuel s k w t h each = rw h refl

value-ok : (v : Outcome ℤ) → (v >>= ok) ≡ v
value-ok (ok n) = refl
value-ok (failed e) = refl
value-ok out_of_fuel = refl

Reads-advance :
    (rest : Text) (s : State) (k : State → Outcome (ℤ × State)) (v : Outcome ℤ) (t : State)
    → advance rest ≡ ok s
    → Reads (k s) v t
    → Reads (advance rest >>= k) v t
Reads-advance rest s k v t h r = rw h r

Reads-divide :
    (v : Outcome ℤ) (s : State) (k : ℤ → State → Outcome (ℤ × State)) (w : ℤ → Outcome ℤ)
    (t : State)
    → ((q : ℤ) → Reads (k q s) (w q) t)
    → Reads (v >>= λ q. k q s) (v >>= w) t
Reads-divide (ok n) s k w t each = each n
Reads-divide (failed e) s k w t each = refl
Reads-divide out_of_fuel s k w t each = refl

factor-some : (x : Factor) → 1 ≤ length (emit_factor x)
unfolding emit_factor
factor-some (numeral ds n) = omega arith
factor-some (name x) = omega arith
factor-some (group e) = omega arith
factor-some (neg x) = omega arith

print-long : (xs : Lexemes) → length xs ≤ length (print xs)
unfolding print
print-long [] = omega arith
print-long (x ∷ xs) =
    let rest = print-long xs in let sum = length-append (spelling x) (print xs) in omega arith

term-some : (t : Term) → 1 ≤ length (emit_term t)
unfolding emit_term
term-some (term x r) =
    let one = factor-some x in
    let sum = length-append (emit_factor x) (emit_products r) in omega arith

ends_expr-term : (t : Token) → ends_expr t ≡ true → ends_term t ≡ true
ends_expr-term t h = ground arith

-- A term may stand before `+`, before `-` and before what ends an expression.
ends-sums :
    (r : Sums) (xs : Lexemes)
    → ends_expr (first_token xs) ≡ true
    → ends_term (first_token (emit_sums r ++ xs)) ≡ true
unfolding emit_sums
ends-sums no_sum xs h = ends_expr-term (first_token xs) h
ends-sums (add t r) xs h = refl
ends-sums (sub t r) xs h = refl

products-Valid :
    (r : Products) (xs : Lexemes) → Valid xs → IsProducts r → Valid (emit_products r ++ xs)
products-Valid r xs h k = Valid-append (emit_products r) xs (emit_products-Valid r k) h

sums-Valid : (r : Sums) (xs : Lexemes) → Valid xs → IsSums r → Valid (emit_sums r ++ xs)
sums-Valid r xs h k = Valid-append (emit_sums r) xs (emit_sums-Valid r k) h

module _ (params : Env) where
  term_loop-stop :
      (f : ℕ) (v : ℤ) (t : Token) (rest : Text)
      → ends_term t ≡ true
      → term_loop params (suc f) v (t, rest) ≡ ok (v, (t, rest))
  unfolding term_loop
  term_loop-stop f v t rest h = ground arith

  expr_loop-stop :
      (f : ℕ) (v : ℤ) (t : Token) (rest : Text)
      → ends_expr t ≡ true
      → expr_loop params (suc f) v (t, rest) ≡ ok (v, (t, rest))
  unfolding expr_loop
  expr_loop-stop f v t rest h = ground arith

  close-paren : (v : ℤ) (xs : Lexemes) → Valid xs → close v (at (close_paren ∷ xs)) ≡ ok (v, at xs)
  unfolding close
  close-paren v xs h = rw (advance-at xs h)

  mutual
    unfolding emit_factor emit_term emit_products emit_expr emit_sums parse_factor parse_term
        term_loop value_factor value_term value_products value_expr value_sums parse_expr expr_loop

    parse_factor-emit :
        (f : ℕ) (x : Factor) (xs : Lexemes)
        → 4 * length (emit_factor x) ≤ f + 3
        → IsFactor x
        → Valid xs
        → Reads (parse_factor params f (at (emit_factor x ++ xs))) (value_factor params x) (at xs)
    parse_factor-emit zero x xs b i h =
        let one = factor-some x in let never : ⊥ = omega arith in elim never [ ]
    parse_factor-emit (suc f) (numeral ds n) xs b i h = rw (advance-at xs h)
    parse_factor-emit (suc f) (name x) xs b i h =
        Reads-advance (print xs) (at xs) (λ s. variable (params x) >>= λ n. ok (n, s))
          (variable (params x)) (at xs) (advance-at xs h) refl
    parse_factor-emit (suc f) (group e) xs b i h =
        let behind : Valid (close_paren ∷ xs) = (close_paren-IsLexeme, h) in
        let sum = length-append (emit_expr e) (close_paren ∷ []) in
        rw (append_assoc (emit_expr e) (close_paren ∷ []) xs) (
          Reads-advance _ (at (emit_expr e ++ (close_paren ∷ xs)))
            (λ s. parse_expr params f s >>= λ r. close r.0 r.1) (value_expr params e) (at xs)
            (advance-at _
              (Valid-append (emit_expr e) (close_paren ∷ xs) (emit_expr-Valid e i) behind))
            (rw (sym (value-ok (value_expr params e))) (
              Reads-bind _ (value_expr params e) (at (close_paren ∷ xs)) close ok (at xs)
                (parse_expr-emit f e (close_paren ∷ xs) (omega arith) i behind refl)
                (λ n. close-paren n xs h))))
    parse_factor-emit (suc f) (neg x) xs b i h =
        Reads-advance _ (at (emit_factor x ++ xs))
          (λ s. parse_factor params f s >>= λ r. ok (wrap64 (neg_ℤ r.0), r.1))
          (value_factor params (neg x)) (at xs)
          (advance-at _ (Valid-append (emit_factor x) xs (emit_factor-Valid x i) h))
          (Reads-bind (parse_factor params f (at (emit_factor x ++ xs))) (value_factor params x)
            (at xs) (λ n s. ok (wrap64 (neg_ℤ n), s)) (λ n. ok (wrap64 (neg_ℤ n))) (at xs)
            (parse_factor-emit f x xs (omega arith) i h) (λ n. refl))

    parse_term-emit :
        (f : ℕ) (t : Term) (xs : Lexemes)
        → 4 * length (emit_term t) ≤ f + 2
        → IsTerm t
        → Valid xs
        → ends_term (first_token xs) ≡ true
        → Reads (parse_term params f (at (emit_term t ++ xs))) (value_term params t) (at xs)
    parse_term-emit zero t xs b i h e =
        let one = term-some t in let never : ⊥ = omega arith in elim never [ ]
    parse_term-emit (suc f) (term x r) xs b i h e =
        let one = factor-some x in
        let sum = length-append (emit_factor x) (emit_products r) in
        rw (append_assoc (emit_factor x) (emit_products r) xs) (
          Reads-bind _ (value_factor params x) (at (emit_products r ++ xs)) (term_loop params f)
            (λ v. value_products params v r) (at xs)
            (parse_factor-emit f x (emit_products r ++ xs) (omega arith) i.0
              (products-Valid r xs h i.1))
            (λ v. term_loop-emit f v r xs (omega arith) i.1 h e))

    term_loop-emit :
        (f : ℕ) (v : ℤ) (r : Products) (xs : Lexemes)
        → 4 * length (emit_products r) + 1 ≤ f
        → IsProducts r
        → Valid xs
        → ends_term (first_token xs) ≡ true
        → Reads
            (term_loop params f v (at (emit_products r ++ xs)))
            (value_products params v r)
            (at xs)
    term_loop-emit zero v r xs b i h e = let never : ⊥ = omega arith in elim never [ ]
    term_loop-emit (suc f) v no_product xs b i h e = term_loop-stop f v _ _ e
    term_loop-emit (suc f) v (times x r) xs b i h e =
        let one = factor-some x in
        let sum = length-append (emit_factor x) (emit_products r) in
        let rest = products-Valid r xs h i.1 in
        rw (append_assoc (emit_factor x) (emit_products r) xs) (
          Reads-advance _ (at (emit_factor x ++ (emit_products r ++ xs)))
            (λ s. parse_factor params f s >>= λ p. term_loop params f (wrap64 (v *ℤ p.0)) p.1)
            (value_products params v (times x r)) (at xs)
            (advance-at _ (Valid-append (emit_factor x) _ (emit_factor-Valid x i.0) rest))
            (Reads-bind _ (value_factor params x) (at (emit_products r ++ xs))
              (λ n. term_loop params f (wrap64 (v *ℤ n)))
              (λ n. value_products params (wrap64 (v *ℤ n)) r) (at xs)
              (parse_factor-emit f x (emit_products r ++ xs) (omega arith) i.0 rest)
              (λ n. term_loop-emit f (wrap64 (v *ℤ n)) r xs (omega arith) i.1 h e)))
    term_loop-emit (suc f) v (over x r) xs b i h e =
        let one = factor-some x in
        let sum = length-append (emit_factor x) (emit_products r) in
        let rest = products-Valid r xs h i.1 in
        rw (append_assoc (emit_factor x) (emit_products r) xs) (
          Reads-advance _ (at (emit_factor x ++ (emit_products r ++ xs)))
            (λ s. parse_factor params f s >>= λ p. divide v p.0 >>= λ q. term_loop params f q p.1)
            (value_products params v (over x r)) (at xs)
            (advance-at _ (Valid-append (emit_factor x) _ (emit_factor-Valid x i.0) rest))
            (Reads-bind _ (value_factor params x) (at (emit_products r ++ xs))
              (λ n s. divide v n >>= λ q. term_loop params f q s)
              (λ n. divide v n >>= λ q. value_products params q r) (at xs)
              (parse_factor-emit f x (emit_products r ++ xs) (omega arith) i.0 rest)
              (λ n.
                Reads-divide (divide v n) (at (emit_products r ++ xs)) (term_loop params f)
                  (λ q. value_products params q r) (at xs)
                  (λ q. term_loop-emit f q r xs (omega arith) i.1 h e))))

    parse_expr-emit :
        (f : ℕ) (x : Expr) (xs : Lexemes)
        → 4 * length (emit_expr x) ≤ f + 1
        → IsExpr x
        → Valid xs
        → ends_expr (first_token xs) ≡ true
        → Reads (parse_expr params f (at (emit_expr x ++ xs))) (value_expr params x) (at xs)
    parse_expr-emit zero (expr t r) xs b i h e =
        let one = term-some t in
        let sum = length-append (emit_term t) (emit_sums r) in
        let never : ⊥ = omega arith in elim never [ ]
    parse_expr-emit (suc f) (expr t r) xs b i h e =
        let one = term-some t in
        let sum = length-append (emit_term t) (emit_sums r) in
        rw (append_assoc (emit_term t) (emit_sums r) xs) (
          Reads-bind _ (value_term params t) (at (emit_sums r ++ xs)) (expr_loop params f)
            (λ v. value_sums params v r) (at xs)
            (parse_term-emit f t (emit_sums r ++ xs) (omega arith) i.0 (sums-Valid r xs h i.1)
              (ends-sums r xs e))
            (λ v. expr_loop-emit f v r xs (omega arith) i.1 h e))

    expr_loop-emit :
        (f : ℕ) (v : ℤ) (r : Sums) (xs : Lexemes)
        → 4 * length (emit_sums r) + 1 ≤ f
        → IsSums r
        → Valid xs
        → ends_expr (first_token xs) ≡ true
        → Reads (expr_loop params f v (at (emit_sums r ++ xs))) (value_sums params v r) (at xs)
    expr_loop-emit zero v r xs b i h e = let never : ⊥ = omega arith in elim never [ ]
    expr_loop-emit (suc f) v no_sum xs b i h e = expr_loop-stop f v _ _ e
    expr_loop-emit (suc f) v (add t r) xs b i h e =
        let one = term-some t in
        let sum = length-append (emit_term t) (emit_sums r) in
        let rest = sums-Valid r xs h i.1 in
        rw (append_assoc (emit_term t) (emit_sums r) xs) (
          Reads-advance _ (at (emit_term t ++ (emit_sums r ++ xs)))
            (λ s. parse_term params f s >>= λ p. expr_loop params f (wrap64 (v +ℤ p.0)) p.1)
            (value_sums params v (add t r)) (at xs)
            (advance-at _ (Valid-append (emit_term t) _ (emit_term-Valid t i.0) rest))
            (Reads-bind _ (value_term params t) (at (emit_sums r ++ xs))
              (λ n. expr_loop params f (wrap64 (v +ℤ n)))
              (λ n. value_sums params (wrap64 (v +ℤ n)) r) (at xs)
              (parse_term-emit f t (emit_sums r ++ xs) (omega arith) i.0 rest (ends-sums r xs e))
              (λ n. expr_loop-emit f (wrap64 (v +ℤ n)) r xs (omega arith) i.1 h e)))
    expr_loop-emit (suc f) v (sub t r) xs b i h e =
        let one = term-some t in
        let sum = length-append (emit_term t) (emit_sums r) in
        let rest = sums-Valid r xs h i.1 in
        rw (append_assoc (emit_term t) (emit_sums r) xs) (
          Reads-advance _ (at (emit_term t ++ (emit_sums r ++ xs)))
            (λ s. parse_term params f s >>= λ p. expr_loop params f (wrap64 (v -ℤ p.0)) p.1)
            (value_sums params v (sub t r)) (at xs)
            (advance-at _ (Valid-append (emit_term t) _ (emit_term-Valid t i.0) rest))
            (Reads-bind _ (value_term params t) (at (emit_sums r ++ xs))
              (λ n. expr_loop params f (wrap64 (v -ℤ n)))
              (λ n. value_sums params (wrap64 (v -ℤ n)) r) (at xs)
              (parse_term-emit f t (emit_sums r ++ xs) (omega arith) i.0 rest (ends-sums r xs e))
              (λ n. expr_loop-emit f (wrap64 (v -ℤ n)) r xs (omega arith) i.1 h e)))

  finish-read : (m : Outcome (ℤ × State)) (v : Outcome ℤ) → Reads m v (at []) → (m >>= finish) ≡ v
  unfolding finish
  finish-read m (ok n) h = rw h refl
  finish-read m (failed e) h = rw h refl
  finish-read m out_of_fuel h = rw h refl

  -- For a well-formed formula of the grammar, `evalFormula` on its printed text gives the formula's
  -- value, or its first error: precedence, grouping to the left, the wrap-around of `int` and the
  -- division by zero are those of the grammar, and the fuel never runs out.
  pub eval_formula-print :
      (e : Expr) → IsExpr e → eval_formula params (print (emit_expr e)) ≡ value_expr params e
  unfolding eval_formula
  eval_formula-print e h =
      let none_behind : Valid [] = tt in
      let valid = Valid-append (emit_expr e) [] (emit_expr-Valid e h) none_behind in
      let short = print-long (emit_expr e ++ []) in
      let same = length-append (emit_expr e) [] in
      let whole : emit_expr e ++ [] ≡ emit_expr e = append-nil (emit_expr e) in
      rw (sym whole) (
        rw (advance-at (emit_expr e ++ []) valid) (
          finish-read _ (value_expr params e) (
            parse_expr-emit (fuel_for (print (emit_expr e ++ []))) e [] (omega arith) h none_behind
              refl)))
