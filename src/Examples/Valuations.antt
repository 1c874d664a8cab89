-- ===== src/Examples/Valuations.antt =====
-- Runs of domain/valuation.py, and its theorems at three days of a small portfolio.
use portfolio_analytics_api.Domain.Valuation.Lookahead.{value_days_no_lookahead, prices_until}
use portfolio_analytics_api.Domain.Valuation.Cash.{apply_position_change-ledger_step, relabelled}
use portfolio_analytics_api.Errors.{ok}
use portfolio_analytics_api.Decimal.{
  eq, le, lt, negate, mul, sub, add, nonzero, not_above_zero, below_zero, is_finite, div,
  zero_decimal,
}
use portfolio_analytics_api.Domain.Valuation.Days.{value_days-IsAscending}
use portfolio_analytics_api.Common.Text.{upper, is_space, strip_left, strip, is_blank}
use portfolio_analytics_api.Domain.Valuation.Points.{point_le}
use portfolio_analytics_api.Examples.Data.{
  points, whole, ledger, sold, bought, paid_in, in_order, oversold, bars, prices, apple,
}
use portfolio_analytics_api.Domain.Valuation.{
  ordered_transactions, validated_prices, required_price_symbols, apply_transaction,
  apply_position_change,
}
use portfolio_analytics_api.Domain.Valuation.Outcome.{
  build_portfolio_valuation-IsValuation, IsValuation,
}
use portfolio_analytics_api.Domain.Models.{sell, PortfolioValuePoint, PortfolioValuation}
use portfolio_analytics_api.Common.Sort.{sort_by, IsAscending}
use portfolio_analytics_api.Domain.Valuation.Build.{
  valuation_dates, start_replay, build_portfolio_valuation, value_days, Replay,
}
use portfolio_analytics_api.Domain.Holdings.{ledger_step, validate_transaction}
use portfolio_analytics_api.Common.{◌++◌, ◌≡◌, List, arith, ◌∷◌, [], refl}

valuations : Unit {0}
unfolding mathlib.Core.Bool.xor validate_transaction sort_by is_blank strip strip_left is_space
    upper is_finite below_zero not_above_zero nonzero add sub mul div negate lt le eq
    apply_transaction apply_position_change value_days build_portfolio_valuation
    required_price_symbols validated_prices ordered_transactions valuation_dates
valuations = tt

-- The state of the loop after the three days.
abbrev closing : Replay
closing = record {
  remaining = [];
  positions = (apple, whole 6) ∷ [];
  cash_balance = whole 738;
  latest_prices = (apple, whole 55) ∷ [];
  pending_external_flow = zero_decimal;
}

value_days-run :
    value_days prices (10 ∷ 11 ∷ 12 ∷ []) (start_replay in_order) ≡ ok (points, closing)
unfolding valuations
value_days-run = refl

value_days-IsAscending_example : IsAscending point_le points
value_days-IsAscending_example =
    value_days-IsAscending prices (10 ∷ 11 ∷ 12 ∷ []) (start_replay in_order) points closing
      (ground arith) value_days-run

value_days_no_lookahead_example :
    (early later : List PortfolioValuePoint) × (between : Replay) × (points ≡ early ++ later)
    × (value_days (prices_until 11 prices) (10 ∷ 11 ∷ []) (start_replay (paid_in ∷ bought ∷ []))
        ≡ ok (early, between))
unfolding valuations
value_days_no_lookahead_example =
    value_days_no_lookahead 11 prices (10 ∷ 11 ∷ []) (12 ∷ []) (paid_in ∷ bought ∷ []) (sold ∷ [])
      points closing (ground arith) (ground arith) value_days-run

abbrev valued : PortfolioValuation
valued = record {
  points = points;
  period_returns = 0 ∷ 0 ∷ [];
  portfolio_value = whole 1068;
  cash_balance = whole 738;
  asset_weights =
      record { symbol = apple; market_value = whole 330; weight = div (whole 330) (whole 1068) }
      ∷ [];
}

build_portfolio_valuation-run : build_portfolio_valuation (λ _. 0) ledger bars 10 12 ≡ ok valued
unfolding valuations
build_portfolio_valuation-run = refl

build_portfolio_valuation-IsValuation_example : IsValuation (λ _. 0) ledger bars 10 12 valued
build_portfolio_valuation-IsValuation_example =
    build_portfolio_valuation-IsValuation (λ _. 0) ledger bars 10 12 valued
      build_portfolio_valuation-run

apply_position_change-ledger_step_example :
    apply_position_change sell oversold [] ≡ relabelled (ledger_step sell oversold [])
apply_position_change-ledger_step_example = apply_position_change-ledger_step sell oversold []
