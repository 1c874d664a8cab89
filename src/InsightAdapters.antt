-- ===== src/InsightAdapters.antt =====
-- infrastructure/insights: the document that is sent and hashed, what is accepted of a model's
-- answer, and the cached generator. The chat client, the JSON forms of numbers, the digest, the
-- search for transaction language and the cache server are arguments.
use portfolio_analytics_api.Domain.Insights.{join_spaced}
use portfolio_analytics_api.Services.Insights.{InsightGenerator}
use portfolio_analytics_api.Common.Int.{eq_ℤ, pos, ℤ}
use portfolio_analytics_api.Common.Text.{is_blank, is_empty, strip, text, Text}
use portfolio_analytics_api.Domain.Models.{
  AnalyticsMethodology, InsightInput, AssetWeight, GeneratedInsight, Float,
}
use portfolio_analytics_api.Common.{
  any, map, not, ◌&&◌, ◌++◌, if◌then◌else◌, length, leb, ℕ, Option, Bool, some, none, false, true,
}
use portfolio_analytics_api.Errors.{value_error, insight_generation, Result, ok, err, ◌>>=◌, ◌>>◌}
use portfolio_analytics_api.MarketData.Cache.{Formats, CacheServer}
use portfolio_analytics_api.MarketData.Json.{
  from_list, Json, Fields, string, field, end, object, array, int, boolean, null,
}
pub mod Cached

abbrev pub optional_number : (Float → Json) → Option Float → Json
optional_number number none = null
optional_number number (some x) = number x

module _ (fm : Formats) (number : Float → Json) where
  abbrev pub weight_field : AssetWeight → Json
  weight_field w = object (
      field (text "symbol") (string w.symbol)
        (field (text "weight") (string (fm.decimal_text w.weight)) end))

  abbrev pub metrics_fields : InsightInput → Json
  metrics_fields i = object (
      field (text "annualized_volatility") (optional_number number i.annualized_volatility) (
        field (text "as_of") (string (fm.iso_date i.as_of)) (
          field (text "asset_weights") (array (from_list (map weight_field i.asset_weights))) (
            field (text "max_drawdown") (optional_number number i.max_drawdown) (
              field (text "sharpe_ratio") (optional_number number i.sharpe_ratio) (
                field (text "simple_return") (optional_number number i.simple_return)
                  (field (text "stale") (boolean i.stale) end)))))))

  -- The policies are the defaults of `AnalyticsMethodology`.
  abbrev pub methodology_fields : AnalyticsMethodology → Json
  methodology_fields m = object (
      field (text "annual_risk_free_rate") (string (fm.decimal_text m.annual_risk_free_rate)) (
        field (text "annualization_periods") (int (pos m.annualization_periods)) (
          field (text "cash_flow_policy")
            (string (
              text
                "DEPOSIT and WITHDRAWAL are external flows; trades are internal cash-to-asset transfers, with an implicit contribution only for an unfunded BUY shortfall."))
            (field (text "date_alignment_policy")
              (string (
                text
                  "Valuation uses the union of observed market dates and carries only previously observed prices forward; future prices are never used."))
              (field (text "fee_policy")
                (string (text "All transaction fees reduce portfolio value on their UTC date."))
                (field (text "price_basis") (string (text "adjusted_close")) (
                  field (text "return_type") (string (text "simple")) (
                    field (text "risk_free_rate_as_of")
                      (string (fm.iso_date m.risk_free_rate_as_of))
                      (field (text "risk_free_rate_assumption") (string m.risk_free_rate_assumption)
                        (field (text "transaction_date_timezone") (string (text "UTC")) (
                          field (text "valuation_method")
                            (string (text "end_of_day_cash_flow_adjusted")) end)))))))))))

  -- `insight_input_payload`, its keys in the order of `sort_keys=True`.
  abbrev pub insight_input_payload : InsightInput → Json
  insight_input_payload i = object (
      field (text "methodology") (methodology_fields i.methodology)
        (field (text "metrics") (metrics_fields i) end))

  -- `serialize_insight_input`
  unfoldable pub serialize_insight_input : InsightInput → Text
  serialize_insight_input i = fm.dump (insight_input_payload i)

-- An answer of the chat client: whether it ran to its end, and its content.
pub record Completion : Type 0 where
  pub stopped : Bool
  pub content : Option Text

pub data Chat : Type 0 where
  chat_failed : Chat
  no_choices : Chat
  chosen : Completion → Chat

-- `_DeepSeekOutput`: the declared bounds and `reject_transaction_recommendations`.
unfoldable pub is_deepseek_output : (Text → Bool) → GeneratedInsight → Bool
is_deepseek_output forbidden g =
    leb 20 (length g.summary)
    && leb (length g.summary) 1200
    && leb (length g.additional_limitations) 3
    && not (forbidden (join_spaced g.summary g.additional_limitations))
    && not (any is_blank g.additional_limitations)

module _ (forbidden : Text → Bool) (read_output : Text → Option GeneratedInsight) where
  abbrev pub accepted_output : Option GeneratedInsight → Result GeneratedInsight
  accepted_output none = err insight_generation
  accepted_output (some g) =
      if is_deepseek_output forbidden g
      then ok (record {
        summary = strip g.summary;
        additional_limitations = map strip g.additional_limitations;
      })
      else err insight_generation

  abbrev pub read_content : Option Text → Result GeneratedInsight
  read_content none = err insight_generation
  read_content (some content) =
      if is_empty content then err insight_generation else accepted_output (read_output content)

  -- `DeepSeekInsightGenerator.generate`, once the client has answered the document.
  abbrev pub answer_of : Chat → Result GeneratedInsight
  answer_of chat_failed = err insight_generation
  answer_of no_choices = err insight_generation
  answer_of (chosen c) = if not c.stopped then err insight_generation else read_content c.content

  unfoldable pub deepseek_generate :
      Formats → (Float → Json) → (Text → Chat) → InsightInput → Result GeneratedInsight
  unfolding is_deepseek_output serialize_insight_input
  deepseek_generate fm number send input = answer_of (
      send (
        text "Explain this structured analytics JSON without adding facts:\n"
        ++ serialize_insight_input fm number input))

-- The declared bounds of `_CachedInsight`.
abbrev pub is_cacheable : GeneratedInsight → Bool
is_cacheable g =
    leb 1 (length g.summary)
    && leb (length g.summary) 1200
    && leb (length g.additional_limitations) 3

-- `model_validate_json` and `model_dump_json`: the version and the insight of a text.
pub record InsightFormat : Type 0 where
  pub read_insight : Text → Option (ℤ × GeneratedInsight)
  pub dump_insight : ℤ → GeneratedInsight → Text

abbrev pub usable_insight : Option (ℤ × GeneratedInsight) → Option GeneratedInsight
usable_insight none = none
usable_insight (some (version, g)) = if eq_ℤ version (pos 1) && is_cacheable g then some g else none

module _ {S : Type 0} (server : CacheServer S) (format : InsightFormat) (ttl_seconds : ℕ)
    (namespace : Text) (digest : Text → Text) (fm : Formats) (number : Float → Json)
    (generator : InsightGenerator) where
  -- `_key`
  unfoldable pub insight_key : InsightInput → Text
  unfolding serialize_insight_input
  insight_key input =
      namespace
      ++ text ":v1:"
      ++ generator.generator_name
      ++ text ":"
      ++ generator.generator_model
      ++ text ":"
      ++ generator.generator_prompt
      ++ text ":"
      ++ digest (serialize_insight_input fm number input)

  -- The write of a new insight, which `_CachedInsight` checks first.
  abbrev pub keep_insight : Bool → Text → GeneratedInsight → S → Result GeneratedInsight × S
  keep_insight false key g s = (err value_error, s)
  keep_insight true key g s =
      (ok g, (server.write_entry key (format.dump_insight (pos 1) g) ttl_seconds s).1)

  abbrev pub after_run : Bool → Text → Result GeneratedInsight → S → Result GeneratedInsight × S
  after_run available key (err e) s = (err e, s)
  after_run false key (ok g) s = (ok g, s)
  after_run true key (ok g) s = keep_insight (is_cacheable g) key g s

  abbrev pub after_parse :
      Option GeneratedInsight → Text → InsightInput → S → Result GeneratedInsight × S
  after_parse (some g) key input s = (ok g, s)
  after_parse none key input s = after_run true key (generator.run input) s

  abbrev pub after_lookup :
      Option (Option Text) → Text → InsightInput → S → Result GeneratedInsight × S
  after_lookup none key input s = after_run false key (generator.run input) s
  after_lookup (some none) key input s = after_run true key (generator.run input) s
  after_lookup (some (some raw)) key input s =
      after_parse (usable_insight (format.read_insight raw)) key input s

  -- `CachedInsightGenerator.generate`
  unfoldable pub cached_generate : InsightInput → S → Result GeneratedInsight × S
  cached_generate input s =
      let key = insight_key input in
      let (found, s') = server.read_entry key s in after_lookup found key input s'
