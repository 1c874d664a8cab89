-- ===== src/MarketData/TwelveData.antt =====
-- infrastructure/market_data/twelve_data_provider.py: the checks of a response and the bars that
-- it gives. `date.fromisoformat` and `Decimal` of a text are arguments, `none` where they raise;
-- so is the HTTP exchange.
use mathlib.Core.List.{reverse}
use portfolio_analytics_api.MarketData.Series.{seen_date, bar_le}
use portfolio_analytics_api.Common.Sort.{sort_by}
use portfolio_analytics_api.Services.Analytics.{MarketDataResult}
use portfolio_analytics_api.Decimal.{not_above_zero, is_finite, Decimal}
use portfolio_analytics_api.Domain.Models.{Float, PriceBar, Date}
use portfolio_analytics_api.Common.Text.{is_empty, strip, is_blank, upper, text, Text}
use portfolio_analytics_api.MarketData.Json.{
  int_from, equals_text, unhashable, to_list, equals_int, array, string, object, get_field, Json,
  Fields,
}
use portfolio_analytics_api.Common.{
  length, ltb, ◌&&◌, ◌||◌, leb, if◌then◌else◌, not, ◌==◌, List, Bool, Option, ℕ, ◌∷◌, [], some,
  none, false, true,
}
pub mod Normalized
pub mod Refused
use portfolio_analytics_api.Errors.{
  market_data_timeout, truncated, value_error, values_missing, duplicate_session,
  close_not_positive, timezone_missing, rejected, status_not_valid, type_error,
  market_data_unavailable, not_object, market_data_not_found, row_not_object, close_missing,
  session_missing, market_data_rate_limit, close_unreadable, session_not_valid, not_json, raise_if,
  market_data_invalid_response, ResponseFault, Result, ok, err, ◌>>=◌, ◌>>◌,
}

abbrev pub max_output_size : ℕ
max_output_size = 5000

abbrev pub invalid_response {ℓ} : {A : Type ℓ} → ResponseFault → Result A
invalid_response fault = err (market_data_invalid_response fault)

-- `_raise_for_http_status`
unfoldable pub raise_for_http_status : ℕ → Text → Result (Unit {0})
raise_for_http_status status_code symbol = do
  raise_if (status_code == 429) market_data_rate_limit
  raise_if (status_code == 404) (market_data_not_found symbol)
  raise_if (leb 500 status_code) market_data_unavailable
  raise_if (leb 400 status_code) (market_data_invalid_response rejected)

-- `_raise_for_provider_error`
unfoldable pub raise_for_provider_error : Fields → Text → Result (Unit {0})
raise_for_provider_error payload symbol = do
  let code = get_field (text "code") payload
  raise_if (equals_int code 429) market_data_rate_limit
  raise_if (unhashable code) type_error
  raise_if (equals_int code 400 || equals_int code 404) (market_data_not_found symbol)
  raise_if (int_from code 500) market_data_unavailable
  err (market_data_invalid_response rejected)

-- `_nonempty_string`
abbrev pub nonempty_string : Json → Bool
nonempty_string (string s) = not (is_blank s)
nonempty_string _ = false

-- `isinstance(meta, dict) and _nonempty_string(meta.get("exchange_timezone"))`
abbrev pub has_timezone : Json → Bool
has_timezone (object meta) = nonempty_string (get_field (text "exchange_timezone") meta)
has_timezone _ = false

abbrev pub as_array : Json → ResponseFault → Result (List Json)
as_array (array values) fault = ok (to_list values)
as_array _ fault = invalid_response fault

abbrev pub as_object : Json → ResponseFault → Result Fields
as_object (object fields) fault = ok fields
as_object _ fault = invalid_response fault

-- `if payload.get("status") == "error": …`
abbrev pub refuse_error : Bool → Fields → Text → Result (Unit {0})
refuse_error true payload symbol = raise_for_provider_error payload symbol
refuse_error false payload symbol = ok tt

-- `_normalize_payload` up to the rows.
unfoldable pub check_payload : Text → Json → Result (List Json)
unfolding raise_for_provider_error
check_payload symbol payload = do
  fields ← as_object payload not_object
  let status = get_field (text "status") fields
  refuse_error (equals_text status (text "error")) fields symbol
  raise_if (not (equals_text status (text "ok"))) (market_data_invalid_response status_not_valid)
  raise_if (not (has_timezone (get_field (text "meta") fields)))
      (market_data_invalid_response timezone_missing)
  values ← as_array (get_field (text "values") fields) values_missing
  raise_if (leb max_output_size (length values)) (market_data_invalid_response truncated)
  ok values

-- What the HTTP exchange gives: a status and a body, which may be no JSON; or an exception.
pub record HttpResponse : Type 0 where
  pub status_code : ℕ
  pub body : Option Json

pub data Exchange : Type 0 where
  timed_out request_failed : Exchange
  answered : HttpResponse → Exchange

-- `_request`, once the client has answered.
abbrev pub response_of : Exchange → Result HttpResponse
response_of timed_out = err market_data_timeout
response_of request_failed = err market_data_unavailable
response_of (answered response) = ok response

abbrev pub body_of : Option Json → Result Json
body_of none = invalid_response not_json
body_of (some payload) = ok payload

-- The query of `get_price_bars`; `iso` is `date.isoformat`.
abbrev pub request_params : (Date → Text) → Text → Text → Date → Date → List (Text × Text)
request_params iso api_key symbol start_date end_date =
    (text "symbol", symbol)
    ∷ (text "interval", text "1day")
    ∷ (text "start_date", iso start_date)
    ∷ (text "end_date", iso end_date)
    ∷ (text "adjust", text "all")
    ∷ (text "outputsize", text "5000")
    ∷ (text "apikey", api_key)
    ∷ []

-- `rstrip("/")`
abbrev pub drop_slashes : Text → Text
drop_slashes [] = []
drop_slashes (c ∷ s) = if c == 47 then drop_slashes s else c ∷ s

-- The settings of a `TwelveDataProvider`, normalised.
pub record TwelveDataOptions : Type 0 where
  pub api_key : Text
  pub request_timeout_seconds : Float
  pub base_url : Text

-- The constructor; `is_positive` tests a float.
unfoldable pub make_twelve_data : (Float → Bool) → Text → Float → Text → Result TwelveDataOptions
make_twelve_data is_positive api_key request_timeout_seconds base_url = do
  let key = strip api_key
  let url = reverse (drop_slashes (reverse (strip base_url)))
  raise_if (is_empty key) value_error
  raise_if (not (is_positive request_timeout_seconds)) value_error
  raise_if (is_empty url) value_error
  ok (record { api_key = key; request_timeout_seconds = request_timeout_seconds; base_url = url })

-- The two parsers of the standard library.
pub record Readers : Type 0 where
  pub date_from_iso : Text → Option Date
  pub decimal_from_text : Text → Option Decimal

module _ (readers : Readers) where
  abbrev pub session_of : Option Date → Result Date
  session_of none = invalid_response session_not_valid
  session_of (some d) = ok d

  -- `_parse_session_date`
  abbrev pub parse_session_date : Json → Result Date
  parse_session_date (string s) = session_of (readers.date_from_iso s)
  parse_session_date _ = invalid_response session_missing

  abbrev pub positive_close : Option Decimal → Date → Result Decimal
  positive_close none session = invalid_response (close_unreadable session)
  positive_close (some price) session =
      if not (is_finite price) || not_above_zero price
      then invalid_response (close_not_positive session)
      else ok price

  -- `_parse_adjusted_close`
  abbrev pub parse_adjusted_close : Json → Date → Result Decimal
  parse_adjusted_close (string s) session = positive_close (readers.decimal_from_text s) session
  parse_adjusted_close _ session = invalid_response (close_missing session)

  module _ (symbol : Text) (start_date end_date : Date) where
    -- The loop over the rows; `seen` holds the dates of the bars before.
    unfoldable pub collect_rows : List Json → List Date → Result (List PriceBar)
    collect_rows [] seen = ok []
    collect_rows (row ∷ rows) seen = do
      fields ← as_object row row_not_object
      session ← parse_session_date (get_field (text "datetime") fields)
      elim (leb start_date session && leb session end_date) [
        | false ↦ collect_rows rows seen
        | true ↦ do
          raise_if (seen_date session seen)
              (market_data_invalid_response (duplicate_session session))
          price ← parse_adjusted_close (get_field (text "close") fields) session
          rest ← collect_rows rows (session ∷ seen)
          ok (record { symbol = symbol; date = session; adjusted_close = price } ∷ rest)
      ]

    abbrev pub sorted_bars : List PriceBar → Result (List PriceBar)
    sorted_bars [] = err (market_data_not_found symbol)
    sorted_bars (bar ∷ bars) = ok (sort_by bar_le (bar ∷ bars))

    -- `_normalize_payload`
    unfoldable pub normalize_payload : Json → Result (List PriceBar)
    unfolding collect_rows check_payload
    normalize_payload payload = do
      values ← check_payload symbol payload
      bars ← collect_rows values []
      sorted_bars bars

  -- `get_price_bars` with a client that answers a query.
  unfoldable pub fetch_price_bars :
      (Date → Text)
      → Text
      → (List (Text × Text) → Exchange)
      → Text
      → Date
      → Date
      → Result MarketDataResult
  unfolding normalize_payload raise_for_http_status
  fetch_price_bars iso api_key send symbol start_date end_date = do
    let normalized = upper (strip symbol)
    raise_if (is_empty normalized) (market_data_not_found normalized)
    raise_if (ltb end_date start_date) value_error
    response ← response_of (send (request_params iso api_key normalized start_date end_date))
    raise_for_http_status response.status_code normalized
    payload ← body_of response.body
    bars ← normalize_payload normalized start_date end_date payload
    ok (record { price_bars = bars; stale = false })
