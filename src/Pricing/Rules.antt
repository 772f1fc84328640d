-- ===== src/Pricing/Rules.antt =====
-- internal/service/pricing.go: the choice of a pricing rule, its cost, and the check of a formula
-- before it is stored. Decoding JSON and `fmt.Sprint` enter as parameters.
use license_server_ai.Base.{
  Bool, true, false, ◌&&◌, ◌||◌, Option, none, some, List, [], ◌∷◌, if◌then◌else◌, ◌==◌, filter_if,
}
use license_server_ai.Base.Int.{ℤ, pos, ltb_ℤ, leb_ℤ, eqb_ℤ}
use license_server_ai.Model.Pricing.{PricingRule}
use license_server_ai.Pricing.Text.{Text, trim_space}
use license_server_ai.Pricing.Values.{Value, FloatOps, to_int}
use license_server_ai.Pricing.Lexer.{Outcome, ok, failed, out_of_fuel, FormulaError}
use license_server_ai.Pricing.Parser.{Env, eval_formula}

unfoldable pub text_eq : Text → Text → Bool
text_eq [] [] = true
text_eq (x ∷ xs) (y ∷ ys) = (x == y) && text_eq xs ys
text_eq _ _ = false

-- What the service needs of the standard library: floats, `json.Unmarshal` of an object into
-- `map[string]any`, and `fmt.Sprint` of a value.
pub record Codec : Type 1 where
  pub floats : FloatOps
  pub decode : Text → Option (List (Text × Value (floats.Float)))
  pub sprint : Value (floats.Float) → Text

pub data MatchError : Type 0 where
  query_failed no_pricing_rule : MatchError
  formula_failed : ℤ → FormulaError → MatchError
  non_positive : ℤ → ℤ → MatchError

pub record MatchResult : Type 0 where
  pub rule_id : ℤ
  pub cost : ℤ
  pub rule_ref : PricingRule

-- `stuck` stands for a formula that the model's fuel did not suffice for.
pub data Match : Type 0 where
  matched : MatchResult → Match
  refused : MatchError → Match
  stuck : Match

-- The order of the query: "priority DESC, id ASC".
unfoldable pub before : PricingRule → PricingRule → Bool
before r s = ltb_ℤ s.priority r.priority || (eqb_ℤ r.priority s.priority && ltb_ℤ r.id s.id)

unfoldable pub insert : PricingRule → List PricingRule → List PricingRule
insert r [] = r ∷ []
insert r (s ∷ ss) = let rest = insert r ss in if before r s then r ∷ s ∷ ss else s ∷ rest

unfoldable pub in_order : List PricingRule → List PricingRule
in_order [] = []
in_order (r ∷ rs) = insert r (in_order rs)

-- The conditions of the query; an empty tenant asks for no tenant.
unfoldable pub selected : Text → Text → Text → PricingRule → Bool
selected tenant provider scope r =
    text_eq r.scope scope
    && r.enabled
    && (text_eq r.provider provider || text_eq r.provider (b'*' ∷ []))
    && (text_eq tenant [] || text_eq r.tenant_id tenant || text_eq r.tenant_id [])

abbrev empty_object : Text
empty_object = b'{' ∷ b'}' ∷ []

abbrev null_text : Text
null_text = b'n' ∷ b'u' ∷ b'l' ∷ b'l' ∷ []

module _ (codec : Codec) (params : Text → Option (Value (codec.floats.Float))) where
  unfoldable pub loose_equal : Value (codec.floats.Float) → Value (codec.floats.Float) → Bool
  loose_equal a b = text_eq (codec.sprint a) (codec.sprint b)

  abbrev holds : Value (codec.floats.Float) → Option (Value (codec.floats.Float)) → Bool
  holds want none = false
  holds want (some got) = loose_equal want got

  unfoldable pub holds_all : List (Text × Value (codec.floats.Float)) → Bool
  holds_all [] = true
  holds_all ((k, want) ∷ conds) = holds want (params k) && holds_all conds

  abbrev decoded : Option (List (Text × Value (codec.floats.Float))) → Bool
  decoded none = false
  decoded (some conds) = holds_all conds

  unfoldable pub match_all : Text → Bool
  match_all json =
      let trimmed = trim_space json in
      if text_eq trimmed [] || text_eq trimmed empty_object || text_eq trimmed null_text
      then true
      else decoded (codec.decode trimmed)

  abbrev as_int : Option (Value (codec.floats.Float)) → Option (Option ℤ)
  as_int none = none
  as_int (some v) = some (to_int (codec.floats) v)

  -- The variables of a formula.
  abbrev pub env : Env
  env x = as_int (params x)

  abbrev pub at_least_one : Outcome ℤ → Outcome ℤ
  at_least_one (ok v) = if ltb_ℤ v (pos 1) then ok (pos 1) else ok v
  at_least_one (failed e) = failed e
  at_least_one out_of_fuel = out_of_fuel

  unfoldable pub compute_cost : PricingRule → Outcome ℤ
  compute_cost r =
      if text_eq (trim_space r.formula) []
      then ok r.credits
      else at_least_one (eval_formula env r.formula)

  abbrev pub charge : PricingRule → Outcome ℤ → Match
  charge r (failed e) = refused (formula_failed r.id e)
  charge r out_of_fuel = stuck
  charge r (ok cost) =
      if leb_ℤ cost (pos 0)
      then refused (non_positive r.id cost)
      else matched (record { rule_id = r.id; cost = cost; rule_ref = r })

  -- The loop over the rules that the query found.
  unfoldable pub first_match : List PricingRule → Match
  first_match [] = refused no_pricing_rule
  first_match (r ∷ rs) =
      let rest = first_match rs in
      if match_all r.match_json then charge r (compute_cost r) else rest

  -- The table is `none` when the query fails.
  unfoldable pub match_for_tenant : Text → Text → Text → Option (List PricingRule) → Match
  match_for_tenant tenant provider scope none = refused query_failed
  match_for_tenant tenant provider scope (some table) =
      first_match (in_order (filter_if (selected (trim_space tenant) provider scope) table))

-- The variables that `extractParams` collects.
abbrev known_names : List Text
known_names =
    (b'd' ∷ b'u' ∷ b'r' ∷ b'a' ∷ b't' ∷ b'i' ∷ b'o' ∷ b'n' ∷ b'_' ∷ b's' ∷ b'e' ∷ b'c' ∷ b'o' ∷ b'n'
      ∷ b'd' ∷ b's' ∷ [])
    ∷ (b'd' ∷ b'u' ∷ b'r' ∷ b'a' ∷ b't' ∷ b'i' ∷ b'o' ∷ b'n' ∷ [])
    ∷ (b'n' ∷ [])
    ∷ (b'r' ∷ b'e' ∷ b'f' ∷ b'e' ∷ b'r' ∷ b'e' ∷ b'n' ∷ b'c' ∷ b'e' ∷ b'_' ∷ b'i' ∷ b'm' ∷ b'a'
        ∷ b'g' ∷ b'e' ∷ b'_' ∷ b'c' ∷ b'o' ∷ b'u' ∷ b'n' ∷ b't' ∷ [])
    ∷ (b'i' ∷ b'n' ∷ b'p' ∷ b'u' ∷ b't' ∷ b'_' ∷ b'i' ∷ b'm' ∷ b'a' ∷ b'g' ∷ b'e' ∷ b'_' ∷ b'c'
        ∷ b'o' ∷ b'u' ∷ b'n' ∷ b't' ∷ [])
    ∷ []

abbrev one_of : Text → List Text → Option (Option ℤ)
one_of x [] = none
one_of x (y ∷ ys) = if text_eq x y then some (some (pos 1)) else one_of x ys

-- `ValidatePricingFormulaSyntax`: nothing for an empty formula, or else its value with each variable 1.
unfoldable pub validate_pricing_formula_syntax : Text → Option (Outcome ℤ)
validate_pricing_formula_syntax src =
    let trimmed = trim_space src in
    if text_eq trimmed [] then none else some (eval_formula (λ x. one_of x known_names) trimmed)
