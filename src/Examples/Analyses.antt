-- ===== src/Examples/Analyses.antt =====
-- The insight services at the small portfolio, with floats whose operations are all zero.
use portfolio_analytics_api.Domain.Analytics.Series.{calculate_simple_returns-IsUsable, IsUsable}
use portfolio_analytics_api.MarketData.Retries.{
  attempt_calls-IsAnswered, attempt_from, IsAnswered, attempt_calls,
}
use portfolio_analytics_api.Domain.Analytics.{
  check_bars, date_le, validate_and_order, calculate_simple_returns,
  calculate_max_drawdown_from_returns, calculate_compounded_return, calculate_sharpe_ratio,
  calculate_annualized_volatility,
}
use portfolio_analytics_api.Services.Transactions.{list_transactions}
use portfolio_analytics_api.Domain.Valuation.Build.{
  valuation_dates, build_portfolio_valuation, value_days,
}
use portfolio_analytics_api.Domain.Valuation.{
  ordered_transactions, validated_prices, required_price_symbols, apply_position_change,
  apply_transaction,
}
use portfolio_analytics_api.Domain.Insights.Risk.{generate_deterministic_insight-rated}
use portfolio_analytics_api.Services.Insights.Generated.{generate-recorded, KeepsRules}
use portfolio_analytics_api.Examples.Data.{ledger, whole}
use portfolio_analytics_api.Domain.Insights.{generate_deterministic_insight}
use portfolio_analytics_api.Common.Text.{upper, is_space, strip_left, strip, is_blank, text}
use portfolio_analytics_api.Examples.Data.{day, apple, bar, opened}
use portfolio_analytics_api.Errors.{Result, market_data_timeout, err, ok}
use portfolio_analytics_api.Decimal.{
  eq, le, lt, negate, mul, sub, add, nonzero, not_above_zero, below_zero, is_finite, div,
  zero_decimal,
}
use portfolio_analytics_api.Common.Sort.{IsSorted, sort_by}
use portfolio_analytics_api.Services.Insights.{generate, InsightGenerator}
use portfolio_analytics_api.Memory.{ledger_of, transactions_list, portfolios_get, InMemoryStore}
use portfolio_analytics_api.Services.Analytics.{
  MarketDataResult, measure, analyze_ledger, analyze, Provider,
}
use portfolio_analytics_api.Domain.Models.{
  Float, PriceBar, insufficient_data, AnalysisSnapshot, PortfolioInsight, PortfolioAnalytics,
  AnalyticsMethodology,
}
use portfolio_analytics_api.Domain.Floats.{Floats}
use portfolio_analytics_api.Domain.Holdings.{validate_transaction}
use portfolio_analytics_api.Common.{
  ◌^◌, ◌-◌, List, ltb, if◌then◌else◌, ℕ, arith, ◌↔◌, ◌++◌, ◌≤◌, ◌≡◌, true, length, ◌∷◌, [], some,
  none, false, refl,
}

analyses : Unit {0}
unfolding mathlib.Core.Bool.xor validate_transaction sort_by is_blank strip strip_left is_space
    upper is_finite below_zero not_above_zero nonzero add sub mul div negate lt le eq
    apply_transaction apply_position_change value_days build_portfolio_valuation
    required_price_symbols validated_prices ordered_transactions valuation_dates analyze
    analyze_ledger measure list_transactions portfolios_get transactions_list ledger_of
    calculate_annualized_volatility calculate_sharpe_ratio calculate_compounded_return
    calculate_max_drawdown_from_returns
analyses = tt

abbrev pub flat : Floats
flat = record {
  of_decimal = λ _. 0;
  of_nat = λ _. 0;
  float_add = λ _ _. 0;
  float_sub = λ _ _. 0;
  float_mul = λ _ _. 0;
  float_div = λ _ _. 0;
  float_le = λ _ _. true;
  float_lt = λ _ _. false;
  float_eq = λ _ _. true;
  sqrt = λ _. 0;
  mean = λ _. 0;
  stdev = λ _. 0;
  percent_text = λ _. text "0.0%";
  fixed_text = λ _. text "0.00";
  decimal_text = λ _. text "0";
  date_text = λ _. text "1970-01-13";
  int_text = λ _. text "252";
}

abbrev pub policy : AnalyticsMethodology
policy = record {
  annual_risk_free_rate = zero_decimal;
  risk_free_rate_as_of = 12;
  risk_free_rate_assumption = text "none";
  annualization_periods = 252;
}

abbrev pub market : Provider
market symbol start_date end_date =
    ok (record { price_bars = bar 10 48 ∷ bar 11 50 ∷ bar 12 55 ∷ []; stale = false })

abbrev traded : InMemoryStore
traded = record opened { transactions = ledger }

abbrev analysed : PortfolioAnalytics
analysed = record {
  as_of = 12;
  simple_return = some 0;
  annualized_volatility = some 0;
  max_drawdown = some 0;
  sharpe_ratio = none;
  portfolio_value = whole 1068;
  cash_balance = whole 738;
  asset_weights =
      record { symbol = apple; market_value = whole 330; weight = div (whole 330) (whole 1068) }
      ∷ [];
  methodology = policy;
  stale = false;
}

analyze-run : analyze flat policy market 1 7 10 12 traded ≡ (ok analysed, traded)
unfolding analyses
analyze-run = refl

-- A generator that is out of order.
abbrev broken : InsightGenerator
broken = record {
  generator_name = text "external";
  generator_model = text "model";
  generator_prompt = text "v1";
  run = λ _. err market_data_timeout;
}

generate-recorded_example :
    (insight : PortfolioInsight) × (snapshot : AnalysisSnapshot) × (generate flat policy market
        (λ _. false)
        (some broken)
        1
        7
        10
        12
        40
        (day 13)
        traded
      ≡ (
        ok insight,
        record traded { analysis_snapshots = traded.analysis_snapshots ++ snapshot ∷ [] },
      ))
    × KeepsRules (generate_deterministic_insight flat analysed) insight
    × (snapshot.portfolio_id ≡ 7)
    × (snapshot.summary ≡ some insight.summary)
generate-recorded_example =
    generate-recorded flat policy market (λ _. false) (some broken) 1 7 10 12 40 (day 13) traded
      analysed analyze-run

generate_deterministic_insight-rated_example :
    (length (generate_deterministic_insight flat analysed).key_factors ≡ 4)
    × (3 ≤ length (generate_deterministic_insight flat analysed).limitations)
    × (length (generate_deterministic_insight flat analysed).limitations ≤ 5)
    × (((generate_deterministic_insight flat analysed).risk_level ≡ insufficient_data) ↔ (
        (analysed.annualized_volatility ≡ none)
        × (analysed.max_drawdown ≡ none)
        × (analysed.sharpe_ratio ≡ none)))
generate_deterministic_insight-rated_example = generate_deterministic_insight-rated flat analysed

-- A provider that answers the third call.
abbrev answers : ℕ → Result MarketDataResult
answers k =
    if ltb k 3 then err market_data_timeout else ok (record { price_bars = []; stale = false })

attempt_calls-run : (attempt_calls flat 3 0 answers).1 ≡ 0 ∷ 0 ∷ []
unfolding attempt_calls attempt_from
attempt_calls-run = refl

attempt_calls-IsAnswered_example :
    IsAnswered 3
      (λ n. flat.float_mul 0 (flat.of_nat (2 ^ (n - 1))))
      answers
      1
      (attempt_calls flat 3 0 answers)
attempt_calls-IsAnswered_example = attempt_calls-IsAnswered flat 3 0 answers (ground arith)

abbrev unordered : List PriceBar
unordered = bar 12 55 ∷ bar 10 48 ∷ bar 11 50 ∷ []

calculate_simple_returns-run : calculate_simple_returns flat unordered ≡ ok (0 ∷ 0 ∷ [])
unfolding analyses calculate_simple_returns validate_and_order check_bars
calculate_simple_returns-run = refl

calculate_simple_returns-IsUsable_example :
    IsUsable [] (sort_by date_le unordered)
    × IsSorted date_le (sort_by date_le unordered)
    × (length {A = Float} (0 ∷ 0 ∷ []) ≡ length (sort_by date_le unordered) - 1)
calculate_simple_returns-IsUsable_example =
    calculate_simple_returns-IsUsable flat unordered (0 ∷ 0 ∷ []) calculate_simple_returns-run
