-- ===== src/Domain/Valuation/Conclusion.antt =====
-- What `build_portfolio_valuation` makes of the points and of the state of its loop at the end.
use portfolio_analytics_api.Domain.Valuation.Quotes.{ArePriced, asset_values-ArePriced}
use portfolio_analytics_api.Domain.Holdings.{symbol_le}
use portfolio_analytics_api.Domain.Quantities.{lookup}
use portfolio_analytics_api.Domain.Models.{AssetWeight}
use portfolio_analytics_api.Common.Sort.{sort_by}
use portfolio_analytics_api.Domain.Valuation.Build.{asset_values, active_positions, weigh}
use portfolio_analytics_api.Decimal.{nonzero}
use portfolio_analytics_api.Common.{arith, inr, inl, ◌∷◌, [], some, none, refl, keep, map, ap, sym}
use portfolio_analytics_api.Common.Text.{Text}
use portfolio_analytics_api.Domain.Quantities.{Dict}
use portfolio_analytics_api.Domain.Valuation.Build.{
  conclude, summarize, Replay, cash_flow_adjusted_returns,
}
use portfolio_analytics_api.Domain.Models.{PortfolioValuation, PortfolioValuePoint, Float}
use portfolio_analytics_api.Decimal.{Decimal}
use portfolio_analytics_api.Common.{
  ◌∙◌, refl, Option, some, none, last, length, ◌≡◌, List, arith, inr, inl, ◌∷◌, [],
}
use portfolio_analytics_api.Errors.{>>=-eq-ok, Result-cases, ok}

-- The asset weights of a valuation against the state of the loop: one for each position that is not
-- zero, in the order of the symbols, its value the quantity times the last price seen and its
-- weight that value divided by a total.
pub record IsWeighted (to_float : Decimal → Float) (r : Replay) (total : Decimal)
    (weights : List AssetWeight) : Type 0 where
  pub values : Dict Decimal
  pub each :
      ArePriced
        (λ symbol. lookup symbol r.latest_prices)
        (keep (λ item. nonzero item.1) r.positions)
        values
  pub weighed : weights ≡ map (weigh to_float total) (sort_by symbol_le values)

module _ (to_float : Decimal → Float) where
  cash_flow_adjusted_returns-length :
      (p : PortfolioValuePoint) (ps : List PortfolioValuePoint) (rs : List Float)
      → cash_flow_adjusted_returns to_float p ps ≡ ok rs
      → length rs ≡ length ps
  unfolding cash_flow_adjusted_returns
  cash_flow_adjusted_returns-length p [] rs h = ground arith
  cash_flow_adjusted_returns-length p (q ∷ ps) rs h =
      elim (Result-cases (cash_flow_adjusted_returns to_float q ps)) [
        | inl (more, e) ↦ let n = cash_flow_adjusted_returns-length q ps more e in ground arith
        | inr (x, e) ↦ ground arith
      ]

  -- What the code after the loop makes of the points and of the state at the end.
  pub record IsSummary (points : List PortfolioValuePoint) (r : Replay) (v : PortfolioValuation)
      : Type 0 where
    pub first : PortfolioValuePoint
    pub rest : List PortfolioValuePoint
    pub same_points : v.points ≡ points
    pub some_points : points ≡ first ∷ rest
    pub weights : IsWeighted to_float r v.portfolio_value v.asset_weights
    pub headline : v.portfolio_value ≡ (last first rest).total_value
    pub headline_cash : v.cash_balance ≡ (last first rest).cash_balance
    pub one_return_each : length v.period_returns ≡ length rest

  summarize-IsSummary :
      (first : PortfolioValuePoint) (rest : List PortfolioValuePoint) (r : Replay)
      (values : Option (Dict Decimal)) (missing : List Text) (v : PortfolioValuation)
      → asset_values (active_positions r.positions) r.latest_prices ≡ values
      → summarize to_float first rest values missing ≡ ok v
      → IsSummary (first ∷ rest) r v
  summarize-IsSummary first rest r none [] v g h = absurd (cc)
  summarize-IsSummary first rest r none (x ∷ xs) v g h = absurd (cc)
  summarize-IsSummary first rest r (some values) missing v g h =
      let (returns, e, made) = >>=-eq-ok (cash_flow_adjusted_returns to_float first rest) _ h in
      let n = cash_flow_adjusted_returns-length first rest returns e in
      let worth : (last first rest).total_value ≡ v.portfolio_value = ground arith in
      let listed : map (weigh to_float (last first rest).total_value) (sort_by symbol_le values)
          ≡ v.asset_weights =
        ground arith in
      record {
        first = first;
        rest = rest;
        same_points = ground arith;
        some_points = refl;
        weights = record {
          values = values;
          each = asset_values-ArePriced _ r.latest_prices values g;
          weighed = sym listed ∙ ap (λ x. map (weigh to_float x) (sort_by symbol_le values)) worth;
        };
        headline = sym worth;
        headline_cash = ground arith;
        one_return_each = ground arith;
      }

  pub conclude-IsSummary :
      (points : List PortfolioValuePoint) (r : Replay) (v : PortfolioValuation)
      → conclude to_float points r ≡ ok v
      → IsSummary points r v
  conclude-IsSummary [] r v h = absurd (cc)
  conclude-IsSummary (first ∷ rest) r v h = summarize-IsSummary first rest r _ _ v refl h
