-- ===== src/Services/Analytics.antt =====
-- `PortfolioAnalyticsService` of application/services.py over the in-memory store. The provider of
-- market data and the operations on floats are arguments.
use portfolio_analytics_api.Domain.Valuation.Build.{build_portfolio_valuation}
use portfolio_analytics_api.Domain.Valuation.{required_price_symbols}
use portfolio_analytics_api.Memory.{Action}
use portfolio_analytics_api.Domain.Analytics.{
  calculate_max_drawdown_from_returns, calculate_compounded_return, calculate_sharpe_ratio,
  calculate_annualized_volatility,
}
use portfolio_analytics_api.Services.Transactions.{list_transactions}
use portfolio_analytics_api.Domain.Quantities.{Dict}
use portfolio_analytics_api.Domain.Floats.{Floats}
use portfolio_analytics_api.Domain.Models.{
  Uuid, PortfolioAnalytics, Transaction, PortfolioValuation, PortfolioValuePoint,
  AnalyticsMethodology, PriceBar, Date,
}
use portfolio_analytics_api.Common.Text.{Text}
use portfolio_analytics_api.Common.{any, ltb, last, map, Bool, List, ◌∷◌, [], some}
use portfolio_analytics_api.Errors.{
  start_after_end, raise_if, assertion_error, no_holdings, analytics_unavailable, invalid_valuation,
  Result, ok, err, ◌>>=◌, ◌>>◌,
}

-- `MarketDataResult` of application/ports.py
pub record MarketDataResult : Type 0 where
  pub price_bars : List PriceBar
  pub stale : Bool

abbrev pub Provider : Type 0
Provider = Text → Date → Date → Result MarketDataResult

-- `except InvalidPortfolioValuationError`
abbrev pub unavailable {ℓ} : {A : Type ℓ} → Result A → Result A
unavailable (ok a) = ok a
unavailable (err (invalid_valuation fault)) = err (analytics_unavailable fault)
unavailable (err e) = err e

-- `asyncio.gather`: one result for each symbol; the calls stand in their order.
abbrev pub gather : Provider → Date → Date → List Text → Result (List (Text × MarketDataResult))
gather provider start_date end_date [] = ok []
gather provider start_date end_date (symbol ∷ symbols) = do
  found ← provider symbol start_date end_date
  others ← gather provider start_date end_date symbols
  ok ((symbol, found) ∷ others)

abbrev pub bars_of : List (Text × MarketDataResult) → Dict (List PriceBar)
bars_of results = map (λ item. (item.0, item.1.price_bars)) results

abbrev pub refuse_no_symbols : List Text → Result (Unit {0})
refuse_no_symbols [] = err (analytics_unavailable no_holdings)
refuse_no_symbols (_ ∷ _) = ok tt

module _ (fl : Floats) (methodology : AnalyticsMethodology) where
  -- The date of the last point; a valuation has a point.
  abbrev pub last_date : List PortfolioValuePoint → Result Date
  last_date [] = err assertion_error
  last_date (p ∷ ps) = ok (last p ps).date

  -- From the valuation to the figures.
  unfoldable pub measure : PortfolioValuation → Bool → Result PortfolioAnalytics
  measure valuation stale = do
    let daily_returns = valuation.period_returns
    as_of ← last_date valuation.points
    volatility ← calculate_annualized_volatility fl daily_returns methodology.annualization_periods
    sharpe ←
        calculate_sharpe_ratio fl daily_returns methodology.annual_risk_free_rate
          methodology.annualization_periods
    ok (record {
      as_of = as_of;
      simple_return = calculate_compounded_return fl daily_returns;
      annualized_volatility = volatility;
      max_drawdown = some (calculate_max_drawdown_from_returns fl daily_returns);
      sharpe_ratio = sharpe;
      portfolio_value = valuation.portfolio_value;
      cash_balance = valuation.cash_balance;
      asset_weights = valuation.asset_weights;
      methodology = methodology;
      stale = stale;
    })

  -- What follows the reading of the ledger.
  unfoldable pub analyze_ledger :
      Provider → List Transaction → Date → Date → Result PortfolioAnalytics
  unfolding measure
  analyze_ledger provider transactions start_date end_date = do
    raise_if (ltb end_date start_date) (analytics_unavailable start_after_end)
    symbols ← unavailable (required_price_symbols transactions start_date end_date)
    refuse_no_symbols symbols
    results ← gather provider start_date end_date symbols
    valuation ←
        unavailable (
          build_portfolio_valuation fl.of_decimal transactions (bars_of results) start_date
            end_date)
    measure valuation (any (λ item. item.1.stale) results)

  unfoldable pub analyze : Provider → Uuid → Uuid → Date → Date → Action PortfolioAnalytics
  unfolding analyze_ledger list_transactions
  analyze provider owner_id portfolio_id start_date end_date s =
      let (transactions, s') = list_transactions owner_id portfolio_id s in
      (transactions >>= λ ts. analyze_ledger provider ts start_date end_date, s')
