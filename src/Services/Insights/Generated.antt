-- ===== src/Services/Insights/Generated.antt =====
-- What an optional generator can change, and the snapshot that every insight leaves.
use portfolio_analytics_api.Domain.Insights.{generate_deterministic_insight}
use portfolio_analytics_api.Services.Analytics.{analyze, Provider}
use portfolio_analytics_api.Domain.Floats.{Floats}
use portfolio_analytics_api.Memory.{InMemoryStore, snapshots_add}
use portfolio_analytics_api.Common.Text.{Text}
use portfolio_analytics_api.Services.Insights.{
  record_insight, snapshot_of, build_insight_input, attempt, final_insight, resolve_insight,
  generate, InsightGenerator,
}
use portfolio_analytics_api.Domain.Models.{
  AnalysisSnapshot, PortfolioAnalytics, DateTime, Date, Uuid, AnalyticsMethodology, InsightInput,
  GeneratedInsight, PortfolioInsight,
}
use portfolio_analytics_api.Common.{arith, ◌++◌, Option, Bool, ◌≡◌, ◌∷◌, [], some, none, refl}
use portfolio_analytics_api.Memory.{Action, ◌>>=◌}
use portfolio_analytics_api.Errors.{Result, ok, err}

-- What the optional generator must not touch.
pub record KeepsRules (rules insight : PortfolioInsight) : Type 0 where
  pub as_of_kept : insight.as_of ≡ rules.as_of
  pub level_kept : insight.risk_level ≡ rules.risk_level
  pub factors_kept : insight.key_factors ≡ rules.key_factors
  pub disclaimer_kept : insight.disclaimer ≡ rules.disclaimer
  pub stale_kept : insight.stale ≡ rules.stale

resolve_insight-KeepsRules :
    (g : InsightGenerator) (r : Result GeneratedInsight) (rules : PortfolioInsight)
    → KeepsRules rules (resolve_insight g r rules)
resolve_insight-KeepsRules g (err e) rules = record {
  as_of_kept = refl;
  level_kept = refl;
  factors_kept = refl;
  disclaimer_kept = refl;
  stale_kept = refl;
}
resolve_insight-KeepsRules g (ok x) rules = record {
  as_of_kept = refl;
  level_kept = refl;
  factors_kept = refl;
  disclaimer_kept = refl;
  stale_kept = refl;
}

final_insight-KeepsRules :
    (forbidden : Text → Bool) (g : Option InsightGenerator) (input : InsightInput)
    (rules : PortfolioInsight)
    → KeepsRules rules (final_insight forbidden g input rules)
final_insight-KeepsRules forbidden none input rules = record {
  as_of_kept = refl;
  level_kept = refl;
  factors_kept = refl;
  disclaimer_kept = refl;
  stale_kept = refl;
}
final_insight-KeepsRules forbidden (some g) input rules =
    resolve_insight-KeepsRules g (attempt forbidden g input) rules

after_ok :
    {A B : Type 0} (m : Action A) (f : A → Action B) (s s' : InMemoryStore) (a : A)
    → m s ≡ (ok a, s')
    → (m >>= f) s ≡ f a s'
after_ok m f s s' a h = ground arith

-- When the analysis succeeds, `generate` returns an insight whatever the optional generator
-- returns or raises; the date, the risk level, the key factors, the disclaimer and the staleness
-- are those of the rules; and one snapshot, which carries the insight's summary, is added.
pub generate-recorded :
    (fl : Floats) (methodology : AnalyticsMethodology) (provider : Provider)
    (forbidden : Text → Bool) (g : Option InsightGenerator) (owner_id pid : Uuid)
    (start_date end_date : Date) (id : Uuid) (now : DateTime) (s : InMemoryStore)
    (a : PortfolioAnalytics)
    → analyze fl methodology provider owner_id pid start_date end_date s ≡ (ok a, s)
    → (insight : PortfolioInsight) × (snapshot : AnalysisSnapshot) × (generate fl methodology
          provider forbidden g owner_id pid start_date end_date id now s
        ≡ (ok insight, record s { analysis_snapshots = s.analysis_snapshots ++ snapshot ∷ [] }))
      × KeepsRules (generate_deterministic_insight fl a) insight
      × (snapshot.portfolio_id ≡ pid)
      × (snapshot.summary ≡ some insight.summary)
unfolding generate record_insight snapshots_add
generate-recorded fl methodology provider forbidden g owner_id pid start_date end_date id now s a
      h =
    let input = build_insight_input a in
    let insight = final_insight forbidden g input (generate_deterministic_insight fl a) in
    (
      insight,
      snapshot_of id pid now input insight,
      after_ok (analyze fl methodology provider owner_id pid start_date end_date)
          (record_insight fl methodology provider forbidden g pid id now) s s a h,
      final_insight-KeepsRules forbidden g input (generate_deterministic_insight fl a),
      refl,
      refl,
    )
