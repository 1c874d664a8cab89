-- ===== src/Domain/Insights.antt =====
-- domain/insights.py: the checks of a generated insight, and the rule-based insight. The search
-- for transaction language, a regular expression, is an argument.
use portfolio_analytics_api.Common.Int.{neg, pos}
use portfolio_analytics_api.Decimal.{finite, lt}
use portfolio_analytics_api.Domain.Floats.{Floats}
use portfolio_analytics_api.Domain.Models.{
  high, moderate, low, PortfolioInsight, insufficient_data, PortfolioAnalytics,
  AnalyticsMethodology, Float, GeneratedInsight, RiskLevel, AssetWeight,
}
use portfolio_analytics_api.Common.Text.{strip, is_blank, text, Text}
use portfolio_analytics_api.Common.{
  ltb, ◌||◌, is_some, ◌+◌, leb, ◌&&◌, length, Option, if◌then◌else◌, ◌++◌, not, ℕ, Bool, List, ◌∷◌,
  [], some, none, false, true,
}
pub mod Risk
use portfolio_analytics_api.Errors.{value_error, raise_if, Result, ok, err, ◌>>=◌, ◌>>◌}

abbrev pub all_blank_free : List Text → Bool
all_blank_free [] = true
all_blank_free (x ∷ xs) = not (is_blank x) && all_blank_free xs

-- `" ".join(…)`
abbrev pub join_spaced : Text → List Text → Text
join_spaced first [] = first
join_spaced first (x ∷ xs) = first ++ 32 ∷ join_spaced x xs

unfoldable pub validate_generated_insight : (Text → Bool) → GeneratedInsight → Result (Unit {0})
validate_generated_insight forbidden generated = do
  let size = length (strip generated.summary)
  raise_if (not (leb 20 size && leb size 1200)) value_error
  raise_if
      (ltb 3 (length generated.additional_limitations)
        || not (all_blank_free generated.additional_limitations))
      value_error
  raise_if (forbidden (join_spaced generated.summary generated.additional_limitations)) value_error

-- `max(asset_weights, key=lambda weight: weight.weight)`: the first of the largest.
abbrev pub largest_weight : AssetWeight → List AssetWeight → AssetWeight
largest_weight best [] = best
largest_weight best (w ∷ ws) = largest_weight (if lt best.weight w.weight then w else best) ws

abbrev pub level_of : Bool → ℕ → RiskLevel
level_of missing score =
    if missing
    then insufficient_data
    else if leb 4 score
    then high
    else if leb 2 score
    then moderate
    else low

abbrev pub level_text : RiskLevel → Text
level_text low = text "low"
level_text moderate = text "moderate"
level_text high = text "high"
level_text insufficient_data = text "insufficient_data"

-- A contribution to the score and the sentence that explains it.
abbrev pub Factor : Type 0
Factor = ℕ × Text

module _ (fl : Floats) where
  abbrev pub hundredths : ℕ → Float
  hundredths n = fl.of_decimal (finite (pos n) 2)

  abbrev pub minus_hundredths : ℕ → Float
  minus_hundredths n = fl.of_decimal (finite (neg (pos n)) 2)

  abbrev pub sentence : Text → Text → Text
  sentence start figure = start ++ figure ++ text "."

  abbrev pub volatility_factor : Option Float → Factor
  volatility_factor none =
      (0, text "Annualized volatility is unavailable because the return history is insufficient.")
  volatility_factor (some v) =
      if fl.float_le (hundredths 30) v
      then (2, sentence (text "Annualized volatility is high at ") (fl.percent_text v))
      else if fl.float_le (hundredths 15) v
      then (1, sentence (text "Annualized volatility is elevated at ") (fl.percent_text v))
      else (0, sentence (text "Annualized volatility is lower at ") (fl.percent_text v))

  abbrev pub drawdown_factor : Option Float → Factor
  drawdown_factor none =
      (0, text "Maximum drawdown is unavailable because the return history is insufficient.")
  drawdown_factor (some d) =
      if fl.float_le d (minus_hundredths 25)
      then (2, sentence (text "Maximum historical drawdown is severe at ") (fl.percent_text d))
      else if fl.float_le d (minus_hundredths 10)
      then (1, sentence (text "Maximum historical drawdown is material at ") (fl.percent_text d))
      else (0, sentence (text "Maximum historical drawdown is limited at ") (fl.percent_text d))

  abbrev pub sharpe_factor : Option Float → Factor
  sharpe_factor none = (
    0,
    text "Sharpe ratio is unavailable because returns are insufficient or volatility is zero.",
  )
  sharpe_factor (some r) =
      if fl.float_lt r (fl.of_nat 0)
      then (1, sentence (text "Historical Sharpe ratio is negative at ") (fl.fixed_text r))
      else if fl.float_lt r (fl.of_nat 1)
      then (0, sentence (text "Historical Sharpe ratio is below 1 at ") (fl.fixed_text r))
      else (0, sentence (text "Historical Sharpe ratio is at least 1 at ") (fl.fixed_text r))

  abbrev pub concentration_label : Float → ℕ × Text
  concentration_label c =
      if fl.float_le (hundredths 50) c
      then (2, text "high")
      else if fl.float_le (hundredths 25) c
      then (1, text "elevated")
      else (0, text "lower")

  abbrev pub concentration_factor : List AssetWeight → Factor
  concentration_factor [] = (
    0,
    text "Security concentration is unavailable because no latest asset weights were produced.",
  )
  concentration_factor (w ∷ ws) =
      let largest = largest_weight w ws in
      let concentration = fl.of_decimal largest.weight in
      let (points, label) = concentration_label concentration in
      (
        points,
        text "Latest single-security concentration is "
            ++ label
            ++ text ": "
            ++ largest.symbol
            ++ text " represents "
            ++ fl.percent_text concentration
            ++ text " of total portfolio value.",
      )

  abbrev pub fixed_limitations : AnalyticsMethodology → List Text
  fixed_limitations m =
      text
        "The metrics use historical adjusted-close data and do not forecast future prices or returns."
      ∷ (text "Volatility and Sharpe use "
          ++ fl.int_text m.annualization_periods
          ++ text " annual periods; Sharpe assumes an annual risk-free rate of "
          ++ fl.decimal_text m.annual_risk_free_rate
          ++ text " as of "
          ++ fl.date_text m.risk_free_rate_as_of
          ++ text ".")
      ∷ text
          "Concentration uses latest security weights relative to total portfolio value including cash; it does not measure sectors, correlations, liquidity, or issuer relationships."
      ∷ []

  abbrev pub when_listed : Bool → Text → List Text
  when_listed true t = t ∷ []
  when_listed false t = []

  unfoldable pub generate_deterministic_insight : PortfolioAnalytics → PortfolioInsight
  generate_deterministic_insight a =
      let volatility = volatility_factor a.annualized_volatility in
      let drawdown = drawdown_factor a.max_drawdown in
      let sharpe = sharpe_factor a.sharpe_ratio in
      let concentration = concentration_factor a.asset_weights in
      let score = volatility.0 + drawdown.0 + sharpe.0 + concentration.0 in
      let v = not (is_some a.annualized_volatility) in
      let d = not (is_some a.max_drawdown) in
      let r = not (is_some a.sharpe_ratio) in
      let level = level_of (v && d && r) score in
      record {
        as_of = a.as_of;
        risk_level = level;
        summary =
            text "Historical rule-based risk level: "
            ++ level_text level
            ++ text
                ". This classification summarizes adverse signals in the supplied metrics and is not a forecast.";
        key_factors = volatility.1 ∷ drawdown.1 ∷ sharpe.1 ∷ concentration.1 ∷ [];
        limitations =
            fixed_limitations a.methodology
            ++ when_listed (v || d || r) (
                text
                  "At least one statistical metric is unavailable; conclusions from the available history are limited.")
            ++ when_listed a.stale
                (text "The analysis used an explicitly stale retained market-data response.");
        disclaimer = text "For informational purposes only; not investment advice.";
        generator = text "deterministic_rules";
        model_name = none;
        prompt_version = text "risk-rules-v1";
        stale = a.stale;
      }
