-- ===== src/Examples/Generators.antt =====
-- A cached generator with a server that keeps everything, and its theorems.
use portfolio_analytics_api.MarketData.Json.{null}
use portfolio_analytics_api.Examples.Analyses.{policy}
use portfolio_analytics_api.Examples.Formats.{plain_server-IsUp, plain_formats, plain_server}
use portfolio_analytics_api.Common.Int.{pos}
use portfolio_analytics_api.InsightAdapters.Cached.{
  cached_generate-twice, cached_generate-IsProvided, IsBounded, IsProvided,
}
use portfolio_analytics_api.Common.Text.{text}
use portfolio_analytics_api.Domain.Models.{InsightInput, GeneratedInsight}
use portfolio_analytics_api.InsightAdapters.{cached_generate, InsightFormat}
use portfolio_analytics_api.Common.{◌≡◌, false, none, arith, [], some, refl}
use portfolio_analytics_api.Services.Insights.{InsightGenerator}
use portfolio_analytics_api.Errors.{insight_generation, ok, err}

-- Insights without limitations, written as their summaries.
abbrev summaries : InsightFormat
summaries = record {
  read_insight = λ s. some (pos 1, record { summary = s; additional_limitations = [] });
  dump_insight = λ version g. g.summary;
}

abbrev calm : GeneratedInsight
calm = record { summary = text "a calm year"; additional_limitations = [] }

abbrev writer : InsightGenerator
writer = record {
  generator_name = text "external";
  generator_model = text "model";
  generator_prompt = text "v1";
  run = λ _. ok calm;
}

abbrev asked : InsightInput
asked = record {
  as_of = 12;
  simple_return = none;
  annualized_volatility = none;
  max_drawdown = none;
  sharpe_ratio = none;
  asset_weights = [];
  methodology = policy;
  stale = false;
}

cached_generate-IsProvided_example :
    IsProvided plain_server summaries 86400
      (text "portfolio-insight")
      (λ s. [])
      plain_formats
      (λ x. null)
      writer
      asked
      []
      (cached_generate plain_server summaries 86400
        (text "portfolio-insight")
        (λ s. [])
        plain_formats
        (λ x. null)
        writer
        asked
        []).0
cached_generate-IsProvided_example =
    cached_generate-IsProvided plain_server summaries 86400 (text "portfolio-insight") (λ s. [])
      plain_formats (λ x. null) writer asked []

calm-IsBounded : IsBounded calm
calm-IsBounded = record {
  not_empty = ground arith;
  not_long = ground arith;
  few_limitations = ground arith;
}

cached_generate-twice_example :
    (cached_generate plain_server summaries 86400
      (text "portfolio-insight")
      (λ s. [])
      plain_formats
      (λ x. null)
      (record writer { run = λ _. err insight_generation })
      asked
      (cached_generate plain_server summaries 86400
        (text "portfolio-insight")
        (λ s. [])
        plain_formats
        (λ x. null)
        writer
        asked
        []).1).0
    ≡ ok calm
cached_generate-twice_example =
    cached_generate-twice plain_server summaries 86400 (text "portfolio-insight") (λ s. [])
      plain_formats (λ x. null) writer plain_server-IsUp asked calm [] (λ _. err insight_generation)
      refl refl refl calm-IsBounded
