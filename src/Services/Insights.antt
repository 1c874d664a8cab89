-- ===== src/Services/Insights.antt =====
-- `PortfolioInsightService` of application/services.py over the in-memory store. The optional
-- generator is an argument, as are the identifier, the clock and the search for transaction
-- language.
use portfolio_analytics_api.Services.Transactions.{require_owned}
use portfolio_analytics_api.Domain.Insights.{
  validate_generated_insight, generate_deterministic_insight,
}
use portfolio_analytics_api.Services.Analytics.{analyze, Provider}
use portfolio_analytics_api.Domain.Floats.{Floats}
use portfolio_analytics_api.Errors.{ok, err, Result}
use portfolio_analytics_api.Domain.Models.{
  Date, AnalysisSnapshot, AnalyticsMethodology, DateTime, PortfolioInsight, SnapshotMetrics, Uuid,
  GeneratedInsight, InsightInput, PortfolioAnalytics,
}
use portfolio_analytics_api.Common.Text.{text_eq, Text}
use portfolio_analytics_api.Common.{
  Option, ◌++◌, any, map, ℕ, Bool, if◌then◌else◌, List, ◌∷◌, [], some, none,
}
pub mod Generated
use portfolio_analytics_api.Memory.{
  snapshots_count, snapshots_list, snapshots_add, portfolios_get, Action, ◌>>=◌, ◌>>◌, pure, lift,
}

-- `InsightGenerator` of application/ports.py
pub record InsightGenerator : Type 0 where
  pub generator_name : Text
  pub generator_model : Text
  pub generator_prompt : Text
  pub run : InsightInput → Result GeneratedInsight

-- `_build_insight_input`
abbrev pub build_insight_input : PortfolioAnalytics → InsightInput
build_insight_input a = record {
  as_of = a.as_of;
  simple_return = a.simple_return;
  annualized_volatility = a.annualized_volatility;
  max_drawdown = a.max_drawdown;
  sharpe_ratio = a.sharpe_ratio;
  asset_weights = a.asset_weights;
  methodology = a.methodology;
  stale = a.stale;
}

-- `_snapshot_metrics`
abbrev pub snapshot_metrics : InsightInput → SnapshotMetrics
snapshot_metrics i = record {
  as_of = i.as_of;
  simple_return = i.simple_return;
  annualized_volatility = i.annualized_volatility;
  max_drawdown = i.max_drawdown;
  sharpe_ratio = i.sharpe_ratio;
  asset_weights = map (λ w. (w.symbol, w.weight)) i.asset_weights;
  stale = i.stale;
}

-- `dict.fromkeys`: the first of equal texts stays.
abbrev pub add_distinct : List Text → List Text → List Text
add_distinct seen [] = seen
add_distinct seen (x ∷ xs) =
    add_distinct (if any (λ y. text_eq y x) seen then seen else seen ++ x ∷ []) xs

abbrev pub enrich : InsightGenerator → GeneratedInsight → PortfolioInsight → PortfolioInsight
enrich g generated insight = record insight {
  summary = generated.summary;
  limitations = add_distinct [] (insight.limitations ++ generated.additional_limitations);
  generator = g.generator_name;
  model_name = some g.generator_model;
  prompt_version = g.generator_prompt;
}

-- The body of the `try`.
abbrev pub attempt : (Text → Bool) → InsightGenerator → InsightInput → Result GeneratedInsight
attempt forbidden g input = elim (g.run input) [
  | err e ↦ err e
  | ok generated ↦ elim (validate_generated_insight forbidden generated) [
    | err e ↦ err e
    | ok _ ↦ ok generated
  ]
]

-- `except Exception` keeps the rule-based insight.
abbrev pub resolve_insight :
    InsightGenerator → Result GeneratedInsight → PortfolioInsight → PortfolioInsight
resolve_insight g (err e) insight = insight
resolve_insight g (ok generated) insight = enrich g generated insight

abbrev pub final_insight :
    (Text → Bool) → Option InsightGenerator → InsightInput → PortfolioInsight → PortfolioInsight
final_insight forbidden none input insight = insight
final_insight forbidden (some g) input insight =
    resolve_insight g (attempt forbidden g input) insight

abbrev pub snapshot_of : Uuid → Uuid → DateTime → InsightInput → PortfolioInsight → AnalysisSnapshot
snapshot_of id portfolio_id now input insight = record {
  id = id;
  portfolio_id = portfolio_id;
  as_of = insight.as_of;
  metrics = snapshot_metrics input;
  methodology = input.methodology;
  summary = some insight.summary;
  generator = some insight.generator;
  model_name = insight.model_name;
  prompt_version = some insight.prompt_version;
  generated_at = now;
}

module _ (fl : Floats) (methodology : AnalyticsMethodology) (provider : Provider)
    (forbidden : Text → Bool) where
  -- What follows the analysis.
  unfoldable pub record_insight :
      Option InsightGenerator
      → Uuid
      → Uuid
      → DateTime
      → PortfolioAnalytics
      → Action PortfolioInsight
  record_insight g portfolio_id id now analytics = do
    let input = build_insight_input analytics
    let insight = final_insight forbidden g input (generate_deterministic_insight fl analytics)
    snapshots_add (snapshot_of id portfolio_id now input insight)
    pure insight

  unfoldable pub generate :
      Option InsightGenerator
      → Uuid
      → Uuid
      → Date
      → Date
      → Uuid
      → DateTime
      → Action PortfolioInsight
  generate g owner_id portfolio_id start_date end_date id now = do
    analytics ← analyze fl methodology provider owner_id portfolio_id start_date end_date
    record_insight g portfolio_id id now analytics

pub record AnalysisSnapshotPage : Type 0 where
  pub items : List AnalysisSnapshot
  pub total : ℕ
  pub limit : ℕ
  pub offset : ℕ

unfoldable pub list_snapshots : Uuid → Uuid → ℕ → ℕ → Action AnalysisSnapshotPage
list_snapshots owner_id portfolio_id limit offset = do
  portfolio ← portfolios_get portfolio_id
  require_owned owner_id portfolio_id portfolio
  items ← snapshots_list portfolio_id limit offset
  total ← snapshots_count portfolio_id
  pure (record { items = items; total = total; limit = limit; offset = offset })
