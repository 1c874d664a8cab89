-- ===== src/Domain/Valuation/Outcome.antt =====
-- `build_portfolio_valuation` as a whole: what a valuation that is returned says.
use portfolio_analytics_api.Domain.Valuation.Conclusion.{IsWeighted, conclude-IsSummary}
use mathlib.Core.Path.{subst}
use portfolio_analytics_api.Domain.Valuation.Booked.{
  IsBooked, IsPointOf, value_days-IsBooked, value_days-IsPointOf,
}
use portfolio_analytics_api.Domain.Valuation.Dates.{
  day_le, ordered_transactions-IsSorted, valuation_dates-IsAscending,
}
use portfolio_analytics_api.Domain.Valuation.Points.{point_le}
use portfolio_analytics_api.Domain.Valuation.{Prices}
use portfolio_analytics_api.Common.Sort.{IsSorted, IsAscending}
use portfolio_analytics_api.Common.{arith, ◌∷◌, [], refl, leb, ap, sym}
use portfolio_analytics_api.Errors.{ValuationFault}
use portfolio_analytics_api.Domain.Valuation.Days.{value_days-IsAscending}
use portfolio_analytics_api.Domain.Valuation.Days.{value_days-IsReplayed}
use portfolio_analytics_api.Common.Text.{Text}
use portfolio_analytics_api.Domain.Quantities.{Dict}
use portfolio_analytics_api.Domain.Valuation.Points.{IsSolvent}
use portfolio_analytics_api.Domain.Valuation.{
  validated_prices, required_price_symbols, validate_date_range, ordered_transactions,
}
use portfolio_analytics_api.Domain.Valuation.Build.{
  start_replay, value_days, valuation_dates, require_some, conclude, build_portfolio_valuation,
  Replay,
}
use portfolio_analytics_api.Domain.Models.{
  PriceBar, PortfolioValuation, Date, PortfolioValuePoint, Transaction, Float,
}
use portfolio_analytics_api.Decimal.{below_zero, is_finite, Decimal}
use portfolio_analytics_api.Common.{◌∙◌, refl, last, All, length, ◌≡◌, List, arith, ◌∷◌, []}
use portfolio_analytics_api.Errors.{no_market_dates, no_holdings, >>=-eq-ok, ok}

-- What the figures of a valuation mean. The market dates are those of the validated prices of the
-- required symbols; `IsPointOf` ties each point to the ledger and the prices up to its day,
-- `IsBooked` ties the state at the end to those up to the last market date, and `IsWeighted` ties
-- the asset weights to that state.
pub record IsValuation (to_float : Decimal → Float) (transactions : List Transaction)
    (bars : Dict (List PriceBar)) (start_date end_date : Date) (v : PortfolioValuation)
    : Type 0 where
  pub required : List Text
  pub required_ok : required_price_symbols transactions start_date end_date ≡ ok required
  pub prices : Dict Prices
  pub prices_ok : validated_prices required bars start_date end_date ≡ ok prices
  pub ordered : List Transaction
  pub ordered_ok : ordered_transactions transactions end_date ≡ ok ordered
  pub day_order : IsSorted day_le ordered
  pub day : Date
  pub days : List Date
  pub dates : valuation_dates prices ≡ day ∷ days
  pub first : PortfolioValuePoint
  pub rest : List PortfolioValuePoint
  pub some_points : v.points ≡ first ∷ rest
  pub ascending : IsAscending point_le v.points
  pub solvent : All IsSolvent v.points
  pub explained : All (IsPointOf prices (day ∷ days) (start_replay ordered)) v.points
  pub end : Replay
  pub booked : IsBooked prices (start_replay ordered) (last day days) (day ∷ days) end
  pub weights : IsWeighted to_float end v.portfolio_value v.asset_weights
  pub headline : v.portfolio_value ≡ (last first rest).total_value
  pub headline_cash : v.cash_balance ≡ (last first rest).cash_balance
  pub one_return_each : length v.period_returns ≡ length rest

module _ (to_float : Decimal → Float) where
  require_some-ok {ℓ} :
      {A : Type ℓ} (xs : List A) (fault : ValuationFault) (ys : List A)
      → require_some to_float xs fault ≡ ok ys
      → (x : A) × (rest : List A) × (xs ≡ x ∷ rest) × (xs ≡ ys)
  require_some-ok [] fault ys h = absurd (cc)
  require_some-ok (x ∷ xs) fault ys h = (x, xs, refl, ground arith)

  -- The steps of a call that returns, one after the other.
  record Stages (transactions : List Transaction) (bars : Dict (List PriceBar))
      (start_date end_date : Date) (v : PortfolioValuation) : Type 0 where
    required : List Text
    required_ok : required_price_symbols transactions start_date end_date ≡ ok required
    prices : Dict Prices
    prices_ok : validated_prices required bars start_date end_date ≡ ok prices
    day : Date
    days : List Date
    dates : valuation_dates prices ≡ day ∷ days
    ordered : List Transaction
    ordered_ok : ordered_transactions transactions end_date ≡ ok ordered
    points : List PortfolioValuePoint
    end : Replay
    ran : value_days prices (day ∷ days) (start_replay ordered) ≡ ok (points, end)
    concluded : conclude to_float points end ≡ ok v

  build_portfolio_valuation-Stages :
      (transactions : List Transaction) (bars : Dict (List PriceBar)) (start_date end_date : Date)
      (v : PortfolioValuation)
      → build_portfolio_valuation to_float transactions bars start_date end_date ≡ ok v
      → Stages transactions bars start_date end_date v
  unfolding build_portfolio_valuation
  build_portfolio_valuation-Stages transactions bars start_date end_date v h =
      let (_, _, h1) = >>=-eq-ok (validate_date_range start_date end_date) _ h in
      let (required, needed, h2) =
        >>=-eq-ok (required_price_symbols transactions start_date end_date) _ h1 in
      let (symbols, some_symbols, h3) =
        >>=-eq-ok (require_some to_float required no_holdings) _ h2 in
      let (prices, priced, h4) =
        >>=-eq-ok (validated_prices symbols bars start_date end_date) _ h3 in
      let (days, some_days, h5) =
        >>=-eq-ok (require_some to_float (valuation_dates prices) no_market_dates) _ h4 in
      let (ordered, listed, h6) = >>=-eq-ok (ordered_transactions transactions end_date) _ h5 in
      let ((points, r), ran, h7) = >>=-eq-ok (value_days prices days (start_replay ordered)) _ h6 in
      let (_, _, _, same_symbols) = require_some-ok required no_holdings symbols some_symbols in
      let (day, later, dates, same_days) =
        require_some-ok (valuation_dates prices) no_market_dates days some_days in
      let listed_days : days ≡ day ∷ later = sym same_days ∙ dates in
      record {
        required = required;
        required_ok = needed;
        prices = prices;
        prices_ok = ap (λ l. validated_prices l bars start_date end_date) same_symbols ∙ priced;
        day = day;
        days = later;
        dates = dates;
        ordered = ordered;
        ordered_ok = listed;
        points = points;
        end = r;
        ran = rw listed_days at ran;
        concluded = h7;
      }

  -- A valuation that is returned has at least one point, and its points are in the order of their
  -- dates. Each point lies on a market date of the validated prices of the required symbols; there
  -- is a state of the ledger at the end of that day, whose transactions are a prefix of the ordered
  -- ledger, which is in the order of its days: all are dated up to that day, and the next one, if
  -- any, is dated after it. Its positions are those that holdings.py replays from the prefix, its
  -- cash is that of the prefix, starting from zero, a BUY's shortfall paid in, and its prices are
  -- the last ones of the market dates up to that day. The point's cash is the cash of that state,
  -- and its total is the cash and the values of all positions that are not zero, each the quantity
  -- times its price; the total is above zero and the cash not below zero. The asset weights are
  -- those of the state at the end of the last market date: each symbol whose position is not zero,
  -- in order, with its value and that value divided by the portfolio value. The portfolio value and
  -- cash are those of the last point, and there is one return for each point after the first.
  pub build_portfolio_valuation-IsValuation :
      (transactions : List Transaction) (bars : Dict (List PriceBar)) (start_date end_date : Date)
      (v : PortfolioValuation)
      → build_portfolio_valuation to_float transactions bars start_date end_date ≡ ok v
      → IsValuation to_float transactions bars start_date end_date v
  unfolding is_finite below_zero
  build_portfolio_valuation-IsValuation transactions bars start_date end_date v h =
      let k = build_portfolio_valuation-Stages transactions bars start_date end_date v h in
      let r = start_replay k.ordered in
      let in_order = subst (IsAscending leb) k.dates (valuation_dates-IsAscending k.prices) in
      let ends = conclude-IsSummary to_float k.points k.end v k.concluded in
      let done = value_days-IsReplayed k.prices (k.day ∷ k.days) r k.points k.end k.ran in
      let sorted =
        value_days-IsAscending k.prices (k.day ∷ k.days) r k.points k.end in_order k.ran in
      let told = value_days-IsPointOf k.prices (k.day ∷ k.days) r k.points k.end in_order k.ran in
      record {
        required = k.required;
        required_ok = k.required_ok;
        prices = k.prices;
        prices_ok = k.prices_ok;
        ordered = k.ordered;
        ordered_ok = k.ordered_ok;
        day_order = ordered_transactions-IsSorted transactions end_date k.ordered k.ordered_ok;
        day = k.day;
        days = k.days;
        dates = k.dates;
        first = ends.first;
        rest = ends.rest;
        some_points = ends.same_points ∙ ends.some_points;
        ascending = rw ends.same_points sorted;
        solvent = rw ends.same_points (done.solvent (refl, refl));
        explained = rw ends.same_points told;
        end = k.end;
        booked = value_days-IsBooked k.prices k.day k.days r k.points k.end in_order k.ran;
        weights = ends.weights;
        headline = ends.headline;
        headline_cash = ends.headline_cash;
        one_return_each = ends.one_return_each;
      }
