-- ===== src/Examples/Market.antt =====
-- A Twelve Data response and a cache at concrete documents, and the theorems of both at them.
use portfolio_analytics_api.Decimal.{not_above_zero, is_finite}
use portfolio_analytics_api.Common.Sort.{sort_by}
use portfolio_analytics_api.MarketData.Cache.Codec.{
  deserialize-serialize_price_bars, deserialize_price_bars-IsSeries,
}
use portfolio_analytics_api.MarketData.TwelveData.Normalized.{
  fetch_price_bars-IsSeries, normalize_payload-IsSeries,
}
use portfolio_analytics_api.Errors.{type_error, market_data_unavailable, err, ok}
use portfolio_analytics_api.Examples.Formats.{
  only_date, plain_formats-IsFaithful, plain_server-IsUp, plain_server, plain_formats,
}
use portfolio_analytics_api.Examples.Data.{whole, bar, apple}
use portfolio_analytics_api.MarketData.Cache.Hits.{
  cached_price_bars-stale, cached_price_bars-twice, IsFetch,
}
use portfolio_analytics_api.MarketData.Cache.Behaviour.{cached_price_bars-IsServed, IsServed}
use portfolio_analytics_api.Services.Analytics.{Provider}
use portfolio_analytics_api.MarketData.TwelveData.Refused.{
  normalize_payload-IsRefusal, error_code, IsRefusal,
}
use portfolio_analytics_api.MarketData.Series.{IsSeries}
use portfolio_analytics_api.MarketData.Json.{
  no_items, from_list, array, end, string, field, object, Json,
}
use portfolio_analytics_api.Domain.Models.{PriceBar, Date}
use portfolio_analytics_api.Common.Text.{
  Text, lower, upper, is_blank, strip, strip_left, text, is_space,
}
use portfolio_analytics_api.Common.{◌<◌, none, true, ◌≡◌, List, ◌∷◌, [], some, false, refl}
use portfolio_analytics_api.MarketData.Cache.{
  stale_key, store_payload, cache_key, cached_price_bars, serialize_price_bars,
  deserialize_price_bars, Options,
}
use portfolio_analytics_api.MarketData.TwelveData.{
  request_params, raise_for_http_status, answered, HttpResponse, fetch_price_bars, Exchange,
  collect_rows, check_payload, raise_for_provider_error, normalize_payload, Readers,
}

market_runs : Unit {0}
unfolding mathlib.Core.Bool.xor is_space strip_left strip is_blank upper lower sort_by is_finite
    not_above_zero raise_for_provider_error check_payload collect_rows normalize_payload cache_key
    cached_price_bars
market_runs = tt

-- A date is read from one character; every price reads as 50.
abbrev readers : Readers
readers = record { date_from_iso = only_date; decimal_from_text = λ _. some (whole 50) }

abbrev value_row : Date → Json
value_row d =
    object
      (field (text "datetime") (string (d ∷ [])) (field (text "close") (string (text "50")) end))

-- Two rows, the later one first, and one outside the range.
abbrev response : Json
response = object (
    field (text "status") (string (text "ok")) (
      field (text "meta") (object (field (text "exchange_timezone") (string (text "UTC")) end)) (
        field (text "values") (array (from_list (value_row 11 ∷ value_row 10 ∷ value_row 40 ∷ [])))
          end)))

abbrev quotes : List PriceBar
quotes = bar 10 50 ∷ bar 11 50 ∷ []

normalize_payload-run : normalize_payload readers apple 10 12 response ≡ ok quotes
unfolding market_runs
normalize_payload-run = refl

normalize_payload-IsSeries_example : IsSeries apple 10 12 quotes
normalize_payload-IsSeries_example =
    normalize_payload-IsSeries readers apple 10 12 response quotes normalize_payload-run

-- A client that answers every query with that document.
abbrev client : List (Text × Text) → Exchange
client _ = answered (record { status_code = 200; body = some response })

fetch_price_bars-run :
    fetch_price_bars readers (λ d. d ∷ []) (text "key") client (text " aapl") 10 12
    ≡ ok (record { price_bars = quotes; stale = false })
unfolding market_runs fetch_price_bars raise_for_http_status
fetch_price_bars-run = refl

fetch_price_bars-IsSeries_example :
    IsSeries (upper (strip (text " aapl"))) 10 12 quotes
    × (false ≡ false)
    × ((answer : HttpResponse) × (client
            (request_params (λ d. d ∷ []) (text "key") (upper (strip (text " aapl"))) 10 12)
          ≡ answered answer)
        × (answer.status_code < 400))
fetch_price_bars-IsSeries_example =
    fetch_price_bars-IsSeries readers (λ d. d ∷ []) (text "key") client (text " aapl") 10 12
      (record { price_bars = quotes; stale = false }) fetch_price_bars-run

-- An error whose code is a list.
abbrev broken_response : Json
broken_response =
    object
      (field (text "status") (string (text "error")) (field (text "code") (array no_items) end))

refusal-run : normalize_payload readers apple 10 12 broken_response ≡ err type_error
unfolding market_runs
refusal-run = refl

normalize_payload-IsRefusal_example : IsRefusal apple (error_code broken_response) type_error
normalize_payload-IsRefusal_example =
    normalize_payload-IsRefusal readers apple 10 12 broken_response type_error refusal-run

deserialize-serialize_price_bars_example :
    deserialize_price_bars plain_formats apple 10 12
      (serialize_price_bars plain_formats apple 10 12 quotes)
    ≡ ok quotes
deserialize-serialize_price_bars_example =
    deserialize-serialize_price_bars plain_formats apple 10 12
      (plain_formats-IsFaithful apple 10 12) quotes normalize_payload-IsSeries_example

deserialize_price_bars-IsSeries_example : IsSeries apple 10 12 quotes
deserialize_price_bars-IsSeries_example =
    deserialize_price_bars-IsSeries plain_formats apple 10 12
      (serialize_price_bars plain_formats apple 10 12 quotes) quotes
      deserialize-serialize_price_bars_example

abbrev options : Options
options = record {
  provider_name = text "twelvedata";
  namespace = text "market-data";
  mutable_ttl_seconds = 300;
  historical_ttl_seconds = 86400;
  stale_ttl_seconds = 604800;
}

abbrev quoting : Provider
quoting symbol start_date end_date = ok (record { price_bars = quotes; stale = false })

abbrev out_of_order : Provider
out_of_order symbol start_date end_date = err market_data_unavailable

cached_price_bars-IsServed_example :
    IsServed plain_server plain_formats options 12 out_of_order 10 12 apple []
      (cached_price_bars plain_server plain_formats options 12 out_of_order 10 12
        (text "aapl")
        []).0
unfolding market_runs
cached_price_bars-IsServed_example =
    cached_price_bars-IsServed plain_server plain_formats options 12 out_of_order 10 12
      (text "aapl") []

quoting-IsFetch :
    IsFetch plain_server plain_server-IsUp plain_formats options 12 10 12 apple
      (plain_formats-IsFaithful (upper (strip apple)) 10 12)
      quoting
      []
      (record { price_bars = quotes; stale = false })
unfolding market_runs
quoting-IsFetch = record {
  missing = refl;
  answered = refl;
  series = normalize_payload-IsSeries_example;
}

abbrev fetched : List (Text × Text)
fetched = (cached_price_bars plain_server plain_formats options 12 quoting 10 12 apple []).1

cached_price_bars-twice_example :
    (cached_price_bars plain_server plain_formats options 12 out_of_order 10 12 apple fetched).0
    ≡ ok (record { price_bars = quotes; stale = false })
cached_price_bars-twice_example =
    cached_price_bars-twice plain_server plain_server-IsUp plain_formats options 12 10 12 apple
      (plain_formats-IsFaithful (upper (strip apple)) 10 12) quoting []
      (record { price_bars = quotes; stale = false }) quoting-IsFetch out_of_order

-- The fresh entry is gone.
abbrev expired : List (Text × Text)
expired =
    (
      stale_key (cache_key plain_formats options (upper (strip apple)) 10 12),
      serialize_price_bars plain_formats (upper (strip apple)) 10 12 quotes,
    )
    ∷ []

expired-fresh :
    (plain_server.read_entry
      (cache_key plain_formats options (upper (strip apple)) 10 12)
      expired).0
    ≡ some none
unfolding market_runs
expired-fresh = refl

expired-stale :
    (plain_server.read_entry
      (stale_key (cache_key plain_formats options (upper (strip apple)) 10 12))
      (plain_server.read_entry
        (cache_key plain_formats options (upper (strip apple)) 10 12)
        expired).1).0
    ≡ (plain_server.read_entry
        (stale_key (cache_key plain_formats options (upper (strip apple)) 10 12))
        fetched).0
unfolding market_runs serialize_price_bars store_payload
expired-stale = refl

cached_price_bars-stale_example :
    (cached_price_bars plain_server plain_formats options 12 out_of_order 10 12 apple expired).0
    ≡ ok (record { price_bars = quotes; stale = true })
cached_price_bars-stale_example =
    cached_price_bars-stale plain_server plain_server-IsUp plain_formats options 12 10 12 apple
      (plain_formats-IsFaithful (upper (strip apple)) 10 12) quoting []
      (record { price_bars = quotes; stale = false }) quoting-IsFetch out_of_order expired
      market_data_unavailable expired-fresh expired-stale refl refl
