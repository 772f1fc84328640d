-- ===== src/Model/Pricing.antt =====
-- internal/model/pricing_rule.go. Texts are lists of bytes, and the two time stamps are left out.
use license_server_ai.Base.{ℕ, Bool, List}
use license_server_ai.Base.Int.{ℤ}

-- `match_json` and `formula` are texts that the service reads.
pub record PricingRule : Type 0 where
  pub id : ℤ
  pub tenant_id : List ℕ
  pub provider : List ℕ
  pub scope : List ℕ
  pub match_json : List ℕ
  pub credits : ℤ
  pub formula : List ℕ
  pub priority : ℤ
  pub enabled : Bool
  pub note : List ℕ
