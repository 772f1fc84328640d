-- ===== src/Pricing/Tests.antt =====
-- The formula evaluator and the choice of a rule on concrete inputs.
use license_server_ai.Base.{
  ℕ, ◌≡◌, ◌≢◌, refl, true, Option, none, some, List, [], ◌∷◌, if◌then◌else◌,
}
use license_server_ai.Base.Int.{pos, ◌+ℤ◌, ◌-ℤ◌, ◌*ℤ◌, neg_ℤ, wrap64, quot_ℤ}
use license_server_ai.Model.Pricing.{PricingRule}
use license_server_ai.Pricing.Text.{Text, atoi, trim_space, skip_spaces}
use license_server_ai.Pricing.Values.{Value, int, text, FloatOps, to_int}
use license_server_ai.Pricing.Lexer.{
  ok, failed, out_of_fuel, division_by_zero, trailing, is_ident_start, is_ident_part, next,
  lex_from, symbol, word, number_word, name_word, span,
}
use license_server_ai.Pricing.Parser.{Env, eval_formula, divide, close}
use license_server_ai.Pricing.Grammar.{
  Expr, expr, no_sum, sub, term, no_product, times, over, numeral, name, group, neg, print,
  emit_expr, value_expr,
}
use license_server_ai.Pricing.RoundTrip.{eval_formula-print}
use license_server_ai.Pricing.Fuel.{eval_formula-total}
use license_server_ai.Pricing.Rules.{
  Codec, matched, match_for_tenant, validate_pricing_formula_syntax, before, insert, in_order,
  selected, match_all, compute_cost, first_match, text_eq, holds_all, loose_equal,
}
use license_server_ai.Pricing.Choice.{Scanned, applies, match_for_tenant-Scanned}

-- `n` is 4, and there is no other variable.
abbrev only_n : Env
only_n x = if text_eq x (b'n' ∷ []) then some (some (pos 4)) else none

-- 2 * (n - 1) / 2 - -7
abbrev sample : Expr
sample =
    expr
      (term (numeral (b'2' ∷ []) (pos 2)) (
        times
          (group (
            expr (term (name (b'n' ∷ [])) no_product)
              (sub (term (numeral (b'1' ∷ []) (pos 1)) no_product) no_sum)))
          (over (numeral (b'2' ∷ []) (pos 2)) no_product)))
      (sub (term (neg (numeral (b'7' ∷ []) (pos 7))) no_product) no_sum)

eval_formula-print_example : eval_formula only_n (print (emit_expr sample)) ≡ ok (pos 10)
unfolding text_eq is_ident_start is_ident_part atoi value_expr divide quot_ℤ ◌+ℤ◌ ◌-ℤ◌ ◌*ℤ◌ neg_ℤ
    wrap64
eval_formula-print_example = eval_formula-print only_n sample (
  ((refl, refl), ((((refl, refl), tt), (((refl, refl), tt), tt)), ((refl, refl), tt))),
  (((refl, refl), tt), tt),
)

-- 1 + 2 * n
evaluated : eval_formula only_n (b'1' ∷ b'+' ∷ b'2' ∷ 32 ∷ b'*' ∷ b'n' ∷ []) ≡ ok (pos 9)
unfolding eval_formula text_eq next lex_from skip_spaces symbol word number_word name_word atoi span
    is_ident_start is_ident_part divide wrap64 quot_ℤ ◌+ℤ◌ ◌-ℤ◌ ◌*ℤ◌
evaluated = refl

-- "n 2"
not_evaluated : eval_formula only_n (b'n' ∷ 32 ∷ b'2' ∷ []) ≡ failed trailing
unfolding eval_formula text_eq next lex_from skip_spaces symbol word number_word name_word atoi span
    is_ident_start is_ident_part divide wrap64 quot_ℤ ◌+ℤ◌ ◌-ℤ◌ ◌*ℤ◌
not_evaluated = refl

-- "n / 0"
divided : eval_formula only_n (b'n' ∷ b'/' ∷ b'0' ∷ []) ≡ failed division_by_zero
unfolding eval_formula text_eq next lex_from skip_spaces symbol word number_word name_word atoi span
    is_ident_start is_ident_part divide wrap64 quot_ℤ ◌+ℤ◌ ◌-ℤ◌ ◌*ℤ◌
divided = refl

eval_formula-total_example : eval_formula only_n (b'n' ∷ b'/' ∷ b'0' ∷ []) ≢ out_of_fuel
eval_formula-total_example = eval_formula-total only_n (b'n' ∷ b'/' ∷ b'0' ∷ [])

-- "4 / (n - 1)" is a formula, but its check divides by 1 - 1.
validated :
    validate_pricing_formula_syntax (b'4' ∷ b'/' ∷ b'(' ∷ b'n' ∷ b'-' ∷ b'1' ∷ b')' ∷ [])
    ≡ some (failed division_by_zero)
unfolding validate_pricing_formula_syntax trim_space eval_formula text_eq next lex_from skip_spaces
    symbol word number_word name_word atoi span is_ident_start is_ident_part divide wrap64 quot_ℤ
    ◌+ℤ◌ ◌-ℤ◌ ◌*ℤ◌ close
validated = refl

-- Floats are whole numbers, a JSON text is one condition on `n`, and values print as bytes.
abbrev whole : FloatOps
whole = record { Float = ℕ; truncate = pos; parse = λ s. none }

abbrev shown : Value ℕ → Text
shown (text s) = s
shown _ = b'4' ∷ []

abbrev codec : Codec
codec = record { floats = whole; decode = λ s. some ((b'n' ∷ [], text s) ∷ []); sprint = shown }

abbrev params : Text → Option (Value ℕ)
params x = if text_eq x (b'n' ∷ []) then some (int (pos 4)) else none

-- The rule costs n * 3 points when `n` is 4.
abbrev rule : PricingRule
rule = record {
  id = pos 1;
  tenant_id = [];
  provider = b'*' ∷ [];
  scope = b'v' ∷ [];
  match_json = b'4' ∷ [];
  credits = pos 10;
  formula = b'n' ∷ b'*' ∷ b'3' ∷ [];
  priority = pos 5;
  enabled = true;
  note = [];
}

-- One of these does not apply to n = 4, and the last comes after the rule.
abbrev table : List PricingRule
table =
    record rule { id = pos 2; formula = []; priority = pos 1 }
    ∷ record rule { id = pos 3; match_json = b'5' ∷ []; priority = pos 9 }
    ∷ rule
    ∷ []

match_for_tenant-Scanned_example :
    Scanned codec params
      (applies codec params [] (b'g' ∷ []) (b'v' ∷ []))
      table
      (match_for_tenant codec params [] (b'g' ∷ []) (b'v' ∷ []) (some table))
match_for_tenant-Scanned_example =
    match_for_tenant-Scanned codec params [] (b'g' ∷ []) (b'v' ∷ []) table

charged_by_formula :
    match_for_tenant codec params [] (b'g' ∷ []) (b'v' ∷ []) (some table)
    ≡ matched (record { rule_id = pos 1; cost = pos 12; rule_ref = rule })
unfolding match_for_tenant first_match in_order selected text_eq trim_space insert before match_all
    holds_all loose_equal compute_cost eval_formula next lex_from symbol word is_ident_start
    name_word neg_ℤ quot_ℤ wrap64 ◌*ℤ◌ ◌+ℤ◌ ◌-ℤ◌ is_ident_part number_word span close divide atoi
    skip_spaces to_int
charged_by_formula = refl
