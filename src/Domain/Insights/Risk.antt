-- ===== src/Domain/Insights/Risk.antt =====
-- What the rule-based insight says of any analytics.
use portfolio_analytics_api.Domain.Models.{Float, insufficient_data, PortfolioAnalytics}
use portfolio_analytics_api.Common.Text.{text, Text}
use portfolio_analytics_api.Domain.Insights.{
  concentration_factor, sharpe_factor, drawdown_factor, volatility_factor, when_listed, level_of,
  generate_deterministic_insight,
}
use portfolio_analytics_api.Domain.Floats.{Floats}
use portfolio_analytics_api.Common.{
  ◌+◌, length-append, ◌||◌, ◌&&◌, is_some, not, Option, some, ◌↔◌, ◌≤◌, ◌≡◌, length, ℕ, Bool, arith,
  none, false, true, refl,
}

length-when_listed : (fl : Floats) (b : Bool) (t : Text) → length (when_listed fl b t) ≤ 1
length-when_listed fl true t = ground arith
length-when_listed fl false t = ground arith

level_of-insufficient : (b : Bool) (n : ℕ) → level_of b n ≡ insufficient_data → b ≡ true
level_of-insufficient true n h = refl
level_of-insufficient false n h = ground arith

none_or_some {ℓ} : {A : Type ℓ} (o : Option A) → not (is_some o) ≡ true → o ≡ none
none_or_some none h = refl
none_or_some (some a) h = ground arith

level_of-all_missing :
    (v d r : Option Float) (n : ℕ)
    → (level_of (not (is_some v) && not (is_some d) && not (is_some r)) n ≡ insufficient_data)
      ↔ ((v ≡ none) × (d ≡ none) × (r ≡ none))
level_of-all_missing v d r n = (
  λ h.
      let b = level_of-insufficient _ n h in
      (none_or_some v (ground arith), none_or_some d (ground arith), none_or_some r (ground arith)),
  λ (a, b, c). rw (a, b, c) refl,
)

-- A rule-based insight names four key factors and three to five limitations, and its risk level is
-- INSUFFICIENT_DATA exactly when the volatility, the drawdown and the Sharpe ratio are all missing.
pub generate_deterministic_insight-rated :
    (fl : Floats) (a : PortfolioAnalytics)
    → (length (generate_deterministic_insight fl a).key_factors ≡ 4)
      × (3 ≤ length (generate_deterministic_insight fl a).limitations)
      × (length (generate_deterministic_insight fl a).limitations ≤ 5)
      × (((generate_deterministic_insight fl a).risk_level ≡ insufficient_data)
          ↔ ((a.annualized_volatility ≡ none) × (a.max_drawdown ≡ none) × (a.sharpe_ratio ≡ none)))
unfolding generate_deterministic_insight
generate_deterministic_insight-rated fl a =
    let v = not (is_some a.annualized_volatility) in
    let d = not (is_some a.max_drawdown) in
    let r = not (is_some a.sharpe_ratio) in
    let partial =
      text
        "At least one statistical metric is unavailable; conclusions from the available history are limited." in
    let stale = text "The analysis used an explicitly stale retained market-data response." in
    let m = length-when_listed fl (v || d || r) partial in
    let n = length-when_listed fl a.stale stale in
    let k = length-append (when_listed fl (v || d || r) partial) (when_listed fl a.stale stale) in
    (
      refl,
      omega arith,
      rw k (omega arith),
      level_of-all_missing a.annualized_volatility a.max_drawdown a.sharpe_ratio (
          (volatility_factor fl a.annualized_volatility).0
          + (drawdown_factor fl a.max_drawdown).0
          + (sharpe_factor fl a.sharpe_ratio).0
          + (concentration_factor fl a.asset_weights).0),
    )
