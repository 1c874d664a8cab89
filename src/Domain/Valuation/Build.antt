-- ===== src/Domain/Valuation/Build.antt =====
-- `build_portfolio_valuation` of domain/valuation.py: the loop over the market dates, the weights
-- and the period returns. `float` of a decimal is an argument.
use portfolio_analytics_api.Domain.Holdings.{symbol_le}
use portfolio_analytics_api.Common.Sort.{sort_by}
use portfolio_analytics_api.Decimal.{
  one_decimal, not_above_zero, div, sub, nonzero, zero_decimal, add, mul, Decimal,
}
use portfolio_analytics_api.Domain.Models.{
  PriceBar, PortfolioValuation, AssetWeight, Float, PortfolioValuePoint, Transaction, Date,
}
use portfolio_analytics_api.Common.Text.{text_le, Text}
use portfolio_analytics_api.Common.{
  is_some, ◌==◌, if◌then◌else◌, map, last, leb, ltb, keep, Option, List, ◌∷◌, [], some, none, false,
  true,
}
use portfolio_analytics_api.Errors.{
  adjusted_value_not_positive, value_not_positive, no_market_dates, no_positive_balance,
  no_usable_price, no_holdings, invalid_valuation, assertion_error, ValuationFault, Error, Result,
  ok, err, ◌>>=◌, ◌>>◌,
}
use portfolio_analytics_api.Domain.Quantities.{Dict, lookup, insert}
use portfolio_analytics_api.Domain.Valuation.{
  Prices, price_on, apply_transaction, transaction_date, required_price_symbols, validated_prices,
  ordered_transactions, validate_date_range,
}

-- The variables of the loop; `remaining` is `ordered_transactions[transaction_index:]`.
pub record Replay : Type 0 where
  pub remaining : List Transaction
  pub positions : Dict Decimal
  pub cash_balance : Decimal
  pub latest_prices : Dict Decimal
  pub pending_external_flow : Decimal

abbrev pub start_replay : List Transaction → Replay
start_replay ordered = record {
  remaining = ordered;
  positions = [];
  cash_balance = zero_decimal;
  latest_prices = [];
  pending_external_flow = zero_decimal;
}

abbrev pub update_price : Text → Option Decimal → Dict Decimal → Dict Decimal
update_price symbol none latest = latest
update_price symbol (some price) latest = insert symbol price latest

-- `for symbol, symbol_prices in prices_by_date.items(): …`
abbrev pub update_latest : Date → Dict Prices → Dict Decimal → Dict Decimal
update_latest day [] latest = latest
update_latest day ((symbol, prices) ∷ all) latest =
    update_latest day all (update_price symbol (price_on day prices) latest)

-- The `while`: every transaction up to the day is applied.
pub record Caught : Type 0 where
  pub remaining : List Transaction
  pub positions : Dict Decimal
  pub cash_balance : Decimal
  pub flow : Decimal

unfoldable pub catch_up : Date → List Transaction → Dict Decimal → Decimal → Decimal → Result Caught
unfolding apply_transaction
catch_up day [] positions cash flow =
    ok (record { remaining = []; positions = positions; cash_balance = cash; flow = flow })
catch_up day (t ∷ ts) positions cash flow = elim (ltb day (transaction_date t)) [
  | true ↦
      ok (record { remaining = t ∷ ts; positions = positions; cash_balance = cash; flow = flow })
  | false ↦ do
    a ← apply_transaction positions cash t
    catch_up day ts a.positions a.cash_balance (add flow a.external_flow)
]

-- `{symbol: quantity for … if quantity != 0}`
abbrev pub active_positions : Dict Decimal → Dict Decimal
active_positions positions = keep (λ item. nonzero item.1) positions

abbrev pub value_item :
    Text → Decimal → Option Decimal → Option (Dict Decimal) → Option (Dict Decimal)
value_item symbol quantity (some price) (some rest) = some ((symbol, mul quantity price) ∷ rest)
value_item symbol quantity _ _ = none

-- The values of the active positions; `none` if a symbol has no price yet.
unfoldable pub asset_values : Dict Decimal → Dict Decimal → Option (Dict Decimal)
asset_values [] latest = some []
asset_values ((symbol, quantity) ∷ active) latest =
    value_item symbol quantity (lookup symbol latest) (asset_values active latest)

-- `sum(asset_values.values(), start=Decimal(0))`
abbrev pub sum_values : Decimal → Dict Decimal → Decimal
sum_values total [] = total
sum_values total ((_, value) ∷ d) = sum_values (add total value) d

abbrev pub valued_point :
    Date → Decimal → Decimal → Option (Dict Decimal) → Option PortfolioValuePoint
valued_point day cash flow none = none
valued_point day cash flow (some values) =
    let total = add cash (sum_values zero_decimal values) in
    if not_above_zero total
    then none
    else some
        (record { date = day; total_value = total; cash_balance = cash; net_external_flow = flow })

-- The state after a point was appended resets the pending flow.
abbrev pub next_replay : Caught → Dict Decimal → Option PortfolioValuePoint → Replay
next_replay c latest point = record {
  remaining = c.remaining;
  positions = c.positions;
  cash_balance = c.cash_balance;
  latest_prices = latest;
  pending_external_flow = elim point [ none ↦ c.flow | some _ ↦ zero_decimal ];
}

abbrev pub with_point :
    Option PortfolioValuePoint → List PortfolioValuePoint → List PortfolioValuePoint
with_point none points = points
with_point (some point) points = point ∷ points

-- One round of the `for` over the market dates.
unfoldable pub value_day :
    Date → Dict Prices → Replay → Result (Option PortfolioValuePoint × Replay)
unfolding catch_up asset_values
value_day day prices r = do
  let latest = update_latest day prices r.latest_prices
  c ← catch_up day r.remaining r.positions r.cash_balance r.pending_external_flow
  let point =
      valued_point day c.cash_balance c.flow (asset_values (active_positions c.positions) latest)
  ok (point, next_replay c latest point)

unfoldable pub value_days :
    Dict Prices → List Date → Replay → Result (List PortfolioValuePoint × Replay)
unfolding value_day
value_days prices [] r = ok ([], r)
value_days prices (day ∷ days) r = do
  (point, r') ← value_day day prices r
  (points, last) ← value_days prices days r'
  ok (with_point point points, last)

-- `sorted({…})` over the days of all symbols
abbrev pub add_day : Date → List Date → List Date
add_day d [] = d ∷ []
add_day d (e ∷ ds) = if e == d then e ∷ ds else e ∷ add_day d ds

abbrev pub add_days : Prices → List Date → List Date
add_days [] days = days
add_days ((d, _) ∷ prices) days = add_days prices (add_day d days)

abbrev pub all_days : Dict Prices → List Date → List Date
all_days [] days = days
all_days ((_, prices) ∷ rest) days = all_days rest (add_days prices days)

unfoldable pub valuation_dates : Dict Prices → List Date
valuation_dates prices = sort_by leb (all_days prices [])

module _ (to_float : Decimal → Float) where
  -- `_cash_flow_adjusted_returns`
  unfoldable pub cash_flow_adjusted_returns :
      PortfolioValuePoint → List PortfolioValuePoint → Result (List Float)
  cash_flow_adjusted_returns previous [] = ok []
  cash_flow_adjusted_returns previous (current ∷ points) =
      let rest = cash_flow_adjusted_returns current points in
      let adjusted = sub current.total_value current.net_external_flow in
      if not_above_zero previous.total_value
      then err (invalid_valuation value_not_positive)
      else if not_above_zero adjusted
      then err (invalid_valuation adjusted_value_not_positive)
      else do
        returns ← rest
        ok (to_float (sub (div adjusted previous.total_value) one_decimal) ∷ returns)

  abbrev pub weigh : Decimal → Text × Decimal → AssetWeight
  weigh total (symbol, value) = record {
    symbol = symbol;
    market_value = value;
    weight = div value total;
  }

  -- `sorted(set(active_positions) - set(latest_prices))[0]`
  abbrev pub missing_symbols : Dict Decimal → Dict Decimal → List Text
  missing_symbols [] latest = []
  missing_symbols ((symbol, _) ∷ active) latest =
      if is_some (lookup symbol latest)
      then missing_symbols active latest
      else symbol ∷ missing_symbols active latest

  abbrev pub first_missing : List Text → Error
  first_missing [] = assertion_error
  first_missing (symbol ∷ symbols) = invalid_valuation (no_usable_price symbol)

  -- From the points on; the first argument is `points[0]`.
  abbrev pub summarize :
      PortfolioValuePoint
      → List PortfolioValuePoint
      → Option (Dict Decimal)
      → List Text
      → Result PortfolioValuation
  summarize first points none missing = err (first_missing (sort_by text_le missing))
  summarize first points (some values) missing = do
    let latest = last first points
    returns ← cash_flow_adjusted_returns first points
    ok (record {
      points = first ∷ points;
      period_returns = returns;
      portfolio_value = latest.total_value;
      cash_balance = latest.cash_balance;
      asset_weights = map (weigh latest.total_value) (sort_by symbol_le values);
    })

  abbrev pub conclude : List PortfolioValuePoint → Replay → Result PortfolioValuation
  conclude [] r = err (invalid_valuation no_positive_balance)
  conclude (first ∷ points) r =
      let active = active_positions r.positions in
      summarize first points (asset_values active r.latest_prices)
        (missing_symbols active r.latest_prices)

  abbrev pub require_some {ℓ} : {A : Type ℓ} → List A → ValuationFault → Result (List A)
  require_some [] fault = err (invalid_valuation fault)
  require_some (x ∷ xs) fault = ok (x ∷ xs)

  unfoldable pub build_portfolio_valuation :
      List Transaction → Dict (List PriceBar) → Date → Date → Result PortfolioValuation
  unfolding cash_flow_adjusted_returns value_days valuation_dates asset_values
  build_portfolio_valuation transactions bars start_date end_date = do
    validate_date_range start_date end_date
    required ← required_price_symbols transactions start_date end_date
    symbols ← require_some required no_holdings
    prices ← validated_prices symbols bars start_date end_date
    days ← require_some (valuation_dates prices) no_market_dates
    ordered ← ordered_transactions transactions end_date
    (points, r) ← value_days prices days (start_replay ordered)
    conclude points r
