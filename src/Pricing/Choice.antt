-- ===== src/Pricing/Choice.antt =====
-- `MatchForTenant` of internal/service/pricing.go charges by the first rule of the table, in the
-- order of the query, among those that apply.
use mathlib.Core.Path.{subst}
use license_server_ai.Base.{
  ◌≡◌, ◌≢◌, refl, sym, ap, ◌∙◌, Bool, true, false, ◌&&◌, Option, some, List, [], ◌∷◌, if◌then◌else◌,
  arith, filter_if, Mem, here, there, Mem-filter_if, filter_if-Mem, and_intro, and_left, and_right,
  Bool-cases, inl, inr,
}
use license_server_ai.Base.Int.{ℤ, pos, leb_ℤ, ◌≤ℤ◌}
use license_server_ai.Model.Pricing.{PricingRule}
use license_server_ai.Pricing.Text.{Text, trim_space}
use license_server_ai.Pricing.Values.{Value}
use license_server_ai.Pricing.Lexer.{Outcome, ok, failed, out_of_fuel}
use license_server_ai.Pricing.Rules.{
  Codec, Match, matched, refused, stuck, query_failed, no_pricing_rule, formula_failed,
  non_positive, before, in_order, selected, match_all, compute_cost, first_match, match_for_tenant,
  charge, at_least_one, env,
}
use license_server_ai.Pricing.Fuel.{eval_formula-total}
use license_server_ai.Pricing.Order.{
  Sorted, before_irrefl, in_order-Sorted, Mem-in_order, in_order-Mem,
}

module _ (codec : Codec) (params : Text → Option (Value (codec.floats.Float))) where
  unfoldable pub matches : PricingRule → Bool
  matches r = match_all codec params r.match_json

  -- The rule passes the query's conditions, and its own hold of the parameters.
  unfoldable pub applies : Text → Text → Text → PricingRule → Bool
  applies tenant provider scope r = selected (trim_space tenant) provider scope r && matches r

  -- A rule of the list that fits, and that no other of them comes before.
  abbrev First : (PricingRule → Bool) → List PricingRule → PricingRule → Type 0
  First fits rs r =
      Mem r rs
      × (fits r ≡ true)
      × ((s : PricingRule) → Mem s rs → fits s ≡ true → before s r ≡ false)

  -- What is charged, or why nothing is.
  abbrev pub Scanned : (PricingRule → Bool) → List PricingRule → Match → Type 0
  Scanned fits rs (matched m) =
      First fits rs (m.rule_ref)
      × (m.rule_id ≡ m.rule_ref.id)
      × (compute_cost codec params (m.rule_ref) ≡ ok (m.cost))
      × (pos 1 ≤ℤ m.cost)
  Scanned fits rs (refused no_pricing_rule) = (s : PricingRule) → Mem s rs → fits s ≡ false
  Scanned fits rs (refused (formula_failed i e)) =
      (r : PricingRule) × First fits rs r × (r.id ≡ i) × (compute_cost codec params r ≡ failed e)
  Scanned fits rs (refused (non_positive i n)) =
      (r : PricingRule) × First fits rs r
      × (r.id ≡ i)
      × (compute_cost codec params r ≡ ok n)
      × (n ≤ℤ pos 0)
  Scanned fits rs (refused query_failed) = ⊥
  Scanned fits rs stuck = ⊥

  at_least_one-fuel : (m : Outcome ℤ) → m ≢ out_of_fuel → at_least_one codec params m ≢ out_of_fuel
  at_least_one-fuel m h = ground arith

  compute_cost-total : (r : PricingRule) → compute_cost codec params r ≢ out_of_fuel
  unfolding compute_cost
  compute_cost-total r =
      let runs = at_least_one-fuel _ (eval_formula-total (env codec params) (r.formula)) in
      ground (arith, runs)

  charge-Scanned :
      (rs : List PricingRule) (r : PricingRule) (m : Outcome ℤ)
      → First matches rs r
      → compute_cost codec params r ≡ m
      → Scanned matches rs (charge codec params r m)
  charge-Scanned rs r (failed e) f h = (r, f, refl, h)
  charge-Scanned rs r out_of_fuel f h = elim (compute_cost-total r h) [ ]
  charge-Scanned rs r (ok n) f h = elim (Bool-cases (leb_ℤ n (pos 0))) [
    | inl b ↦
        subst (λ b'. Scanned matches rs (if b' then refused (non_positive r.id n) else priced))
          (sym b) (r, f, refl, h, ground arith)
    | inr b ↦
        subst (λ b'. Scanned matches rs (if b' then refused (non_positive r.id n) else priced))
          (sym b) (f, refl, h, ground arith)
  ]
    where
      priced : Match
      priced = matched (record { rule_id = r.id; cost = n; rule_ref = r })

  First-here :
      (r : PricingRule) (rs : List PricingRule)
      → ((s : PricingRule) → Mem s rs → before s r ≡ false)
      → matches r ≡ true
      → First matches (r ∷ rs) r
  First-here r rs h t = (here refl, t, λ s m u. go s m)
    where
      go : (s : PricingRule) → Mem s (r ∷ rs) → before s r ≡ false
      go s (here e) = ap (λ x. before x r) e ∙ before_irrefl r
      go s (there m) = h s m

  First-there :
      (r x : PricingRule) (rs : List PricingRule)
      → matches r ≡ false
      → First matches rs x
      → First matches (r ∷ rs) x
  First-there r x rs f (m, t, least) = (there m, t, go)
    where
      go : (s : PricingRule) → Mem s (r ∷ rs) → matches s ≡ true → before s x ≡ false
      go s (here e) u = let never : ⊥ = (let both = ap matches e in ground arith) in elim never [ ]
      go s (there n) u = least s n u

  Scanned-there :
      (r : PricingRule) (rs : List PricingRule) (m : Match)
      → matches r ≡ false
      → Scanned matches rs m
      → Scanned matches (r ∷ rs) m
  Scanned-there r rs (matched m) f h = (First-there r (m.rule_ref) rs f h.0, h.1, h.2, h.3)
  Scanned-there r rs (refused no_pricing_rule) f h = go
    where
      go : (s : PricingRule) → Mem s (r ∷ rs) → matches s ≡ false
      go s (here e) = ap matches e ∙ f
      go s (there m) = h s m
  Scanned-there r rs (refused (formula_failed i e)) f h =
      (h.0, First-there r h.0 rs f h.1, h.2, h.3)
  Scanned-there r rs (refused (non_positive i n)) f h =
      (h.0, First-there r h.0 rs f h.1, h.2, h.3, h.4)
  Scanned-there r rs (refused query_failed) f h = h
  Scanned-there r rs stuck f h = h

  first_match-Scanned :
      (rs : List PricingRule) → Sorted rs → Scanned matches rs (first_match codec params rs)
  unfolding first_match matches
  first_match-Scanned [] h = λ s m. elim m [ ]
  first_match-Scanned (r ∷ rs) h = elim (Bool-cases (match_all codec params r.match_json)) [
    | inl t ↦
        subst (λ b. Scanned matches (r ∷ rs) (if b then now else first_match codec params rs))
          (sym t) (charge-Scanned (r ∷ rs) r _ (First-here r rs h.0 t) refl)
    | inr f ↦
        subst (λ b. Scanned matches (r ∷ rs) (if b then now else first_match codec params rs))
          (sym f) (Scanned-there r rs _ f (first_match-Scanned rs h.1))
  ]
    where
      now : Match
      now = charge codec params r (compute_cost codec params r)

  -- The query keeps what is selected, in its order.
  in_query :
      (sel : PricingRule → Bool) (table : List PricingRule) (s : PricingRule)
      → Mem s table
      → sel s ≡ true
      → Mem s (in_order (filter_if sel table))
  in_query sel table s m h = in_order-Mem s _ (filter_if-Mem sel s table m h)

  of_query :
      (sel : PricingRule → Bool) (table : List PricingRule) (s : PricingRule)
      → Mem s (in_order (filter_if sel table))
      → Mem s table × (sel s ≡ true)
  of_query sel table s m = Mem-filter_if sel s table (Mem-in_order s _ m)

  First-table :
      (sel : PricingRule → Bool) (table : List PricingRule) (r : PricingRule)
      → First matches (in_order (filter_if sel table)) r
      → First (λ s. sel s && matches s) table r
  First-table sel table r (m, t, least) =
      let (n, selected) = of_query sel table r m in
      (
        n,
        and_intro selected t,
        λ s k u.
            least s (in_query sel table s k (and_left (sel s) (matches s) u))
              (and_right (sel s) (matches s) u),
      )

  Scanned-table :
      (sel : PricingRule → Bool) (table : List PricingRule) (m : Match)
      → Scanned matches (in_order (filter_if sel table)) m
      → Scanned (λ s. sel s && matches s) table m
  Scanned-table sel table (matched m) h = (First-table sel table (m.rule_ref) h.0, h.1, h.2, h.3)
  Scanned-table sel table (refused no_pricing_rule) h = λ s m. unfit s m
    where
      unfit : (s : PricingRule) → Mem s table → (sel s && matches s) ≡ false
      unfit s m = elim (Bool-cases (sel s)) [
        | inl t ↦ let none_fits = h s (in_query sel table s m t) in ground arith
        | inr f ↦ ground arith
      ]
  Scanned-table sel table (refused (formula_failed i e)) h =
      (h.0, First-table sel table h.0 h.1, h.2, h.3)
  Scanned-table sel table (refused (non_positive i n)) h =
      (h.0, First-table sel table h.0 h.1, h.2, h.3, h.4)
  Scanned-table sel table (refused query_failed) h = h
  Scanned-table sel table stuck h = h

  -- When the query works, `MatchForTenant` charges by a rule of the table that applies (its scope,
  -- provider, tenant and conditions fit, and it is enabled) and that no other rule which applies comes
  -- before in the order of the query; the cost is the rule's, and at least 1. It says that there is no
  -- rule only if none applies. Its two other errors are those of such a first rule: its formula fails,
  -- or its cost is not positive. It always comes to an end.
  pub match_for_tenant-Scanned :
      (tenant provider scope : Text) (table : List PricingRule)
      → Scanned
          (applies tenant provider scope)
          table
          (match_for_tenant codec params tenant provider scope (some table))
  unfolding match_for_tenant applies
  match_for_tenant-Scanned tenant provider scope table =
      let sel = selected (trim_space tenant) provider scope in
      Scanned-table sel table _ (first_match-Scanned _ (in_order-Sorted (filter_if sel table)))
