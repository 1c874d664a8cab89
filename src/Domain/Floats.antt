-- ===== src/Domain/Floats.antt =====
-- The operations on Python floats, the texts and the statistics that the analytics use, as the
-- fields of a record: the interpreter and its `statistics` module provide them.
use portfolio_analytics_api.Common.Text.{Text}
use portfolio_analytics_api.Domain.Models.{Date, Float}
use portfolio_analytics_api.Decimal.{Decimal}
use portfolio_analytics_api.Common.{ℕ, Bool, List}

pub record Floats : Type 0 where
  pub of_decimal : Decimal → Float
  pub of_nat : ℕ → Float
  pub float_add : Float → Float → Float
  pub float_sub : Float → Float → Float
  pub float_mul : Float → Float → Float
  pub float_div : Float → Float → Float
  pub float_le : Float → Float → Bool
  pub float_lt : Float → Float → Bool
  pub float_eq : Float → Float → Bool
  pub sqrt : Float → Float
  pub mean : List Float → Float
  pub stdev : List Float → Float
  pub percent_text : Float → Text
  pub fixed_text : Float → Text
  pub decimal_text : Decimal → Text
  pub date_text : Date → Text
  pub int_text : ℕ → Text
