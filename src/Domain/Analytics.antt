-- ===== src/Domain/Analytics.antt =====
-- domain/analytics.py: the figures that are computed from the period returns.
use portfolio_analytics_api.Common.Sort.{sort_by}
pub mod Series
use portfolio_analytics_api.Common.Int.{pos}
use portfolio_analytics_api.Domain.Models.{Date, PriceBar, Float}
use portfolio_analytics_api.Decimal.{
  not_above_zero, one_decimal, zero_decimal, sub, lt, is_finite, finite, div, Decimal,
}
use portfolio_analytics_api.Domain.Floats.{Floats}
use portfolio_analytics_api.Common.{
  ◌||◌, leb, any, Bool, length, not, ltb, if◌then◌else◌, Option, ◌==◌, List, ℕ, ◌∷◌, [], some, none,
}
use portfolio_analytics_api.Errors.{
  ◌>>=◌, close_not_valid_on, duplicate_date, invalid_price_series, value_error, raise_if, Result,
  ok, ◌>>◌,
}

abbrev pub validate_annualization_periods : ℕ → Result (Unit {0})
validate_annualization_periods periods = raise_if (periods == 0) value_error

abbrev pub date_le : PriceBar → PriceBar → Bool
date_le a b = leb a.date b.date

-- The loop of `_validate_and_order`; the dates seen are those of the bars before.
unfoldable pub check_bars : List Date → List PriceBar → Result (Unit {0})
check_bars seen [] = ok tt
check_bars seen (bar ∷ bars) = do
  raise_if (any (λ d. d == bar.date) seen) (invalid_price_series (duplicate_date bar.date))
  raise_if (not (is_finite bar.adjusted_close) || not_above_zero bar.adjusted_close)
      (invalid_price_series (close_not_valid_on bar.date))
  check_bars (bar.date ∷ seen) bars

-- `_validate_and_order`
unfoldable pub validate_and_order : List PriceBar → Result (List PriceBar)
unfolding check_bars
validate_and_order bars = do let ordered = sort_by date_le bars; check_bars [] ordered; ok ordered

-- `max(a, b)` and `min(a, b)` of decimals keep the first on a tie.
abbrev pub decimal_max : Decimal → Decimal → Decimal
decimal_max a b = if lt a b then b else a

abbrev pub decimal_min : Decimal → Decimal → Decimal
decimal_min a b = if lt b a then b else a

abbrev pub drawdown_of : Decimal → Decimal → List PriceBar → Decimal
drawdown_of peak worst [] = worst
drawdown_of peak worst (bar ∷ bars) =
    let peak' = decimal_max peak bar.adjusted_close in
    drawdown_of peak' (decimal_min worst (sub (div bar.adjusted_close peak') one_decimal)) bars

module _ (fl : Floats) where
  abbrev pub pair_returns : PriceBar → List PriceBar → List Float
  pair_returns previous [] = []
  pair_returns previous (current ∷ bars) =
      fl.of_decimal (sub (div current.adjusted_close previous.adjusted_close) one_decimal)
      ∷ pair_returns current bars

  abbrev pub returns_of : List PriceBar → List Float
  returns_of [] = []
  returns_of (bar ∷ bars) = pair_returns bar bars

  unfoldable pub calculate_simple_returns : List PriceBar → Result (List Float)
  unfolding validate_and_order
  calculate_simple_returns bars = do ordered ← validate_and_order bars; ok (returns_of ordered)

  abbrev pub drawdown_of_bars : List PriceBar → Option Float
  drawdown_of_bars [] = none
  drawdown_of_bars (bar ∷ bars) =
      some (fl.of_decimal (drawdown_of bar.adjusted_close zero_decimal bars))

  unfoldable pub calculate_max_drawdown : List PriceBar → Result (Option Float)
  unfolding validate_and_order
  calculate_max_drawdown bars = do ordered ← validate_and_order bars; ok (drawdown_of_bars ordered)

  unfoldable pub calculate_annualized_volatility : List Float → ℕ → Result (Option Float)
  calculate_annualized_volatility returns periods = do
    validate_annualization_periods periods
    ok (
        if ltb (length returns) 2
        then none
        else some (fl.float_mul (fl.stdev returns) (fl.sqrt (fl.of_nat periods))))

  -- `Decimal(annualization_periods)`
  abbrev pub period_rate : Decimal → ℕ → Float
  period_rate rate periods = fl.of_decimal (div rate (finite (pos periods) 0))

  unfoldable pub calculate_sharpe_ratio : List Float → Decimal → ℕ → Result (Option Float)
  calculate_sharpe_ratio returns rate periods = do
    validate_annualization_periods periods
    raise_if (not (is_finite rate)) value_error
    ok (
        if ltb (length returns) 2
        then none
        else if fl.float_eq (fl.stdev returns) (fl.of_nat 0)
        then none
        else some (
            fl.float_mul
              (fl.float_div (fl.float_sub (fl.mean returns) (period_rate rate periods))
                (fl.stdev returns))
              (fl.sqrt (fl.of_nat periods))))

  abbrev pub compound : Float → List Float → Float
  compound wealth [] = wealth
  compound wealth (r ∷ rs) = compound (fl.float_mul wealth (fl.float_add (fl.of_nat 1) r)) rs

  unfoldable pub calculate_compounded_return : List Float → Option Float
  calculate_compounded_return [] = none
  calculate_compounded_return (r ∷ rs) =
      some (fl.float_sub (compound (fl.of_nat 1) (r ∷ rs)) (fl.of_nat 1))

  -- Python's `max(a, b)` and `min(a, b)` keep the first on a tie.
  abbrev pub float_max : Float → Float → Float
  float_max a b = if fl.float_lt a b then b else a

  abbrev pub float_min : Float → Float → Float
  float_min a b = if fl.float_lt b a then b else a

  abbrev pub drawdown_from : Float → Float → Float → List Float → Float
  drawdown_from wealth peak worst [] = worst
  drawdown_from wealth peak worst (r ∷ rs) =
      let wealth' = fl.float_mul wealth (fl.float_add (fl.of_nat 1) r) in
      let peak' = float_max peak wealth' in
      drawdown_from wealth' peak'
        (float_min worst (fl.float_sub (fl.float_div wealth' peak') (fl.of_nat 1))) rs

  unfoldable pub calculate_max_drawdown_from_returns : List Float → Float
  calculate_max_drawdown_from_returns returns =
      drawdown_from (fl.of_nat 1) (fl.of_nat 1) (fl.of_nat 0) returns
