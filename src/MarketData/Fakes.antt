-- ===== src/MarketData/Fakes.antt =====
-- The fake market-data provider and the fake insight generator of infrastructure/memory.py.
use portfolio_analytics_api.MarketData.Series.{bar_order, bar_le}
use portfolio_analytics_api.Common.Sort.{sort_by-IsSorted, All-sort_by, IsSorted, sort_by}
use portfolio_analytics_api.Services.Analytics.{Provider, MarketDataResult}
use portfolio_analytics_api.Domain.Quantities.{lookup, insert, Dict}
use portfolio_analytics_api.Common.Text.{upper, Text}
use portfolio_analytics_api.Domain.Models.{InsightInput, PriceBar, GeneratedInsight, Date}
use portfolio_analytics_api.Common.{
  All-keep_test, All-imp, Option-cases, ◌≤◌, All, ◌⊎◌, ◌≡◌, arith, inr, inl, true, refl, false,
  keep, ◌&&◌, leb, ◌++◌, Bool, Option, List, ◌∷◌, [], some, none,
}
use portfolio_analytics_api.Errors.{market_data_not_found, Result, ok, err}

abbrev pub add_prices : List (Text × List PriceBar) → Dict (List PriceBar) → Dict (List PriceBar)
add_prices [] prices = prices
add_prices ((symbol, bars) ∷ entries) prices =
    add_prices entries (insert (upper symbol) bars prices)

-- The constructor: later entries for the same upper-case symbol replace earlier ones.
abbrev pub fake_prices : List (Text × List PriceBar) → Dict (List PriceBar)
fake_prices entries = add_prices entries []

-- `get_price_bars`
abbrev pub in_range : Date → Date → PriceBar → Bool
in_range start_date end_date bar = leb start_date bar.date && leb bar.date end_date

abbrev pub fake_result : Text → Date → Date → Option (List PriceBar) → Result MarketDataResult
fake_result symbol start_date end_date none = err (market_data_not_found symbol)
fake_result symbol start_date end_date (some bars) = ok (record {
  price_bars = sort_by bar_le (keep (in_range start_date end_date) bars);
  stale = false;
})

unfoldable pub fake_price_bars : Dict (List PriceBar) → Provider
fake_price_bars prices symbol start_date end_date =
    fake_result (upper symbol) start_date end_date (lookup (upper symbol) prices)

-- `FakeInsightGenerator.generate`: the inputs that it has seen are its state.
unfoldable pub fake_generate :
    Result GeneratedInsight
    → InsightInput
    → List InsightInput
    → Result GeneratedInsight × List InsightInput
fake_generate result input inputs = (result, inputs ++ input ∷ [])

-- The fake provider returns the bars that it holds for the upper-case symbol and whose dates are in
-- the range, in the order of their dates, and never marks them stale; for a symbol that it does not
-- hold it raises `MarketDataNotFoundError`.
pub fake_price_bars_answers :
    (prices : Dict (List PriceBar)) (symbol : Text) (start_date end_date : Date)
    → ((lookup (upper symbol) prices ≡ none)
        × (fake_price_bars prices symbol start_date end_date
            ≡ err (market_data_not_found (upper symbol))))
      ⊎ ((held : List PriceBar) × (result : MarketDataResult) × (lookup (upper symbol) prices
            ≡ some held)
          × (fake_price_bars prices symbol start_date end_date ≡ ok result)
          × (result.stale ≡ false)
          × All (λ bar. (start_date ≤ bar.date) × (bar.date ≤ end_date)) result.price_bars
          × IsSorted bar_le result.price_bars)
unfolding fake_price_bars
fake_price_bars_answers prices symbol start_date end_date =
    elim (Option-cases (lookup (upper symbol) prices)) [
      | inl missing ↦ inl (missing, rw (fake_price_bars, missing) refl)
      | inr (held, found) ↦
          let kept = keep (in_range start_date end_date) held in
          inr (
            held,
            record { price_bars = sort_by bar_le kept; stale = false },
            found,
            rw (fake_price_bars, found) refl,
            refl,
            All-sort_by bar_le (λ bar. (start_date ≤ bar.date) × (bar.date ≤ end_date)) kept
                (All-imp (λ bar. in_range start_date end_date bar ≡ true)
                  (λ bar. (start_date ≤ bar.date) × (bar.date ≤ end_date))
                  (λ bar h. (ground arith, ground arith)) kept
                  (All-keep_test (in_range start_date end_date) held)),
            sort_by-IsSorted bar_le bar_order kept,
          )
    ]
