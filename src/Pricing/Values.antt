-- ===== src/Pricing/Values.antt =====
-- internal/service/pricing.go, `toInt`: a value of the request parameters as an integer.
-- Floating-point numbers are not modelled: their type and the conversions of the language enter as
-- parameters.
use license_server_ai.Base.{Option, none, some}
use license_server_ai.Base.Int.{ℤ}
use license_server_ai.Pricing.Text.{Text, trim_space, atoi}

-- The cases of the type switch; `other` is any further dynamic type.
pub data Value (F : Type 0) : Type 0 where
  int : ℤ → Value F
  int64 : ℤ → Value F
  float64 : F → Value F
  float32 : F → Value F
  text : Text → Value F
  number : Text → Value F
  other : Value F

-- `int(x)` on a float, and `json.Number.Float64`.
pub record FloatOps : Type 1 where
  pub Float : Type 0
  pub truncate : Float → ℤ
  pub parse : Text → Option Float

module _ (ops : FloatOps) where
  open ops use {Float, truncate, parse}

  abbrev truncated : Option Float → Option ℤ
  truncated none = none
  truncated (some f) = some (truncate f)

  -- A number that is no integer literal is read as a float, and truncated.
  abbrev or_float : Text → Option ℤ → Option ℤ
  or_float s (some n) = some n
  or_float s none = truncated (parse s)

  unfoldable pub to_int : Value Float → Option ℤ
  to_int (int n) = some n
  to_int (int64 n) = some n
  to_int (float64 f) = some (truncate f)
  to_int (float32 f) = some (truncate f)
  to_int (text s) = atoi (trim_space s)
  to_int (number s) = or_float s (atoi s)
  to_int other = none
