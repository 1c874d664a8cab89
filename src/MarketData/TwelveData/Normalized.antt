-- ===== src/MarketData/TwelveData/Normalized.antt =====
-- What the bars of a Twelve Data response are like.
use portfolio_analytics_api.Services.Analytics.{MarketDataResult}
use portfolio_analytics_api.Common.Sort.{sort_by}
use portfolio_analytics_api.MarketData.Series.{
  sort_by-IsSeries, bar_le, seen_date, IsFresh, IsSeries, IsQuoted,
}
use portfolio_analytics_api.Decimal.Sign.{IsPositive}
use portfolio_analytics_api.Decimal.{Decimal}
use portfolio_analytics_api.MarketData.Json.{
  null, object, array, float, int, get_field, boolean, string, Json,
}
use portfolio_analytics_api.Domain.Models.{PriceBar, Date}
use portfolio_analytics_api.Common.Text.{is_empty, strip, upper, text, Text}
use portfolio_analytics_api.MarketData.TwelveData.{
  body_of, request_failed, timed_out, request_params, answered, response_of, HttpResponse,
  fetch_price_bars, raise_for_http_status, Exchange, check_payload, parse_session_date, sorted_bars,
  as_object, parse_adjusted_close, normalize_payload, collect_rows, Readers,
}
use portfolio_analytics_api.Common.{
  ltb, ◌<◌, ℕ, refl, Bool-cases, Option-cases, ◌⊎◌, ◌&&◌, All, ◌≡◌, leb, List, arith, inr, inl, ◌∷◌,
  [], false,
}
use portfolio_analytics_api.Errors.{
  value_error, market_data_not_found, duplicate_session, market_data_invalid_response, raise_if,
  row_not_object, >>=-eq-ok, ok,
}

module _ (readers : Readers) (symbol : Text) (start_date end_date : Date) where
  priced_close :
      (j : Json) (d : Date) (price : Decimal)
      → parse_adjusted_close readers j d ≡ ok price
      → IsPositive price
  priced_close (string s) d price h = elim (Option-cases (readers.decimal_from_text s)) [
    | inl e ↦ ground arith
    | inr (p, e) ↦ ground arith
  ]
  priced_close null d price h = ground arith
  priced_close (boolean _) d price h = ground arith
  priced_close (int _) d price h = ground arith
  priced_close (float _) d price h = ground arith
  priced_close (array _) d price h = ground arith
  priced_close (object _) d price h = ground arith

  -- One more row: skipped, or collected after the checks.
  record IsRow (row : Json) (rows : List Json) (seen : List Date) (bars : List PriceBar)
      : Type 0 where
    session : Date
    collected :
        ((leb start_date session && leb session end_date) ≡ false)
          × (collect_rows readers symbol start_date end_date rows seen ≡ ok bars)
        ⊎ ((bar : PriceBar) × (rest : List PriceBar) × (bars ≡ bar ∷ rest)
            × IsQuoted symbol start_date end_date bar
            × (seen_date bar.date seen ≡ false)
            × (collect_rows readers symbol start_date end_date rows (bar.date ∷ seen) ≡ ok rest))

  collect_rows-IsRow :
      (row : Json) (rows : List Json) (seen : List Date) (bars : List PriceBar)
      → collect_rows readers symbol start_date end_date (row ∷ rows) seen ≡ ok bars
      → IsRow row rows seen bars
  unfolding collect_rows
  collect_rows-IsRow row rows seen bars h =
      let (fields, _, h1) = >>=-eq-ok (as_object row row_not_object) _ h in
      let (session, _, h2) =
        >>=-eq-ok (parse_session_date readers (get_field (text "datetime") fields)) _ h1 in
      elim (Bool-cases (leb start_date session && leb session end_date)) [
        | inr outside ↦ record { session = session; collected = inl (outside, rw outside at h2) }
        | inl inside ↦
            let (_, fresh, h3) =
              >>=-eq-ok
                (raise_if (seen_date session seen)
                  (market_data_invalid_response (duplicate_session session)))
                _ (rw inside at h2) in
            let (price, read, h4) =
              >>=-eq-ok (parse_adjusted_close readers (get_field (text "close") fields) session) _
                h3 in
            let (rest, more, made) =
              >>=-eq-ok (collect_rows readers symbol start_date end_date rows (session ∷ seen)) _
                h4 in
            record {
              session = session;
              collected = inr (
                record { symbol = symbol; date = session; adjusted_close = price },
                rest,
                ground arith,
                record {
                  of_symbol = refl;
                  not_early = ground arith;
                  not_late = ground arith;
                  priced = priced_close (get_field (text "close") fields) session price read;
                },
                ground arith,
                more,
              );
            }
      ]

  collect_rows-IsFresh :
      (rows : List Json) (seen : List Date) (bars : List PriceBar)
      → collect_rows readers symbol start_date end_date rows seen ≡ ok bars
      → All (IsQuoted symbol start_date end_date) bars × IsFresh seen bars
  unfolding collect_rows
  collect_rows-IsFresh [] seen [] h = (tt, tt)
  collect_rows-IsFresh [] seen (b ∷ bars) h = absurd (cc)
  collect_rows-IsFresh (row ∷ rows) seen bars h =
      let step = collect_rows-IsRow row rows seen bars h in
      elim step.collected [
        | inl (_, more) ↦ collect_rows-IsFresh rows seen bars more
        | inr (bar, rest, e, quoted, fresh, more) ↦
            let (q, f) = collect_rows-IsFresh rows (bar.date ∷ seen) rest more in
            rw e ((quoted, q), (fresh, f))
      ]

  sorted_bars-IsSeries :
      (bars series : List PriceBar)
      → All (IsQuoted symbol start_date end_date) bars
      → IsFresh [] bars
      → sorted_bars readers symbol start_date end_date bars ≡ ok series
      → IsSeries symbol start_date end_date series
  sorted_bars-IsSeries [] series q f h = absurd (cc)
  sorted_bars-IsSeries (b ∷ bars) series q f h =
      let same : sort_by bar_le (b ∷ bars) ≡ series = ground arith in
      rw (← same) (sort_by-IsSeries symbol start_date end_date (b ∷ bars) (λ e. ground arith) q f)

  -- Whatever JSON document the provider sends, the bars that are accepted are quoted for the
  -- symbol, in the range asked for, with finite closes above zero, in ascending order of their
  -- dates, no date twice, and there is at least one.
  pub normalize_payload-IsSeries :
      (payload : Json) (series : List PriceBar)
      → normalize_payload readers symbol start_date end_date payload ≡ ok series
      → IsSeries symbol start_date end_date series
  unfolding normalize_payload
  normalize_payload-IsSeries payload series h =
      let (values, _, h1) = >>=-eq-ok (check_payload symbol payload) _ h in
      let (bars, collected, h2) =
        >>=-eq-ok (collect_rows readers symbol start_date end_date values []) _ h1 in
      let (q, f) = collect_rows-IsFresh values [] bars collected in
      sorted_bars-IsSeries bars series q f h2

response_of-answered :
    (sent : Exchange) (response : HttpResponse)
    → response_of sent ≡ ok response
    → sent ≡ answered response
response_of-answered timed_out response h = absurd (cc)
response_of-answered request_failed response h = absurd (cc)
response_of-answered (answered r) response h = ground arith

raise_for_http_status-below :
    (status : ℕ) (symbol : Text) → raise_for_http_status status symbol ≡ ok tt → status < 400
unfolding raise_for_http_status
raise_for_http_status-below status symbol h = ground arith

-- What `get_price_bars` returns is a series for the normalised symbol, not stale; the client has
-- answered the query with a status below 400.
pub fetch_price_bars-IsSeries :
    (readers : Readers) (iso : Date → Text) (api_key : Text) (send : List (Text × Text) → Exchange)
    (symbol : Text) (start_date end_date : Date) (result : MarketDataResult)
    → fetch_price_bars readers iso api_key send symbol start_date end_date ≡ ok result
    → IsSeries (upper (strip symbol)) start_date end_date result.price_bars
      × (result.stale ≡ false)
      × ((response : HttpResponse) × (send
              (request_params iso api_key (upper (strip symbol)) start_date end_date)
            ≡ answered response)
          × (response.status_code < 400))
unfolding fetch_price_bars
fetch_price_bars-IsSeries readers iso api_key send symbol start_date end_date result h =
    let normalized = upper (strip symbol) in
    let (_, _, h1) =
      >>=-eq-ok (raise_if (is_empty normalized) (market_data_not_found normalized)) _ h in
    let (_, _, h2) = >>=-eq-ok (raise_if (ltb end_date start_date) value_error) _ h1 in
    let sent = send (request_params iso api_key normalized start_date end_date) in
    let (response, received, h3) = >>=-eq-ok (response_of sent) _ h2 in
    let (_, passed, h4) = >>=-eq-ok (raise_for_http_status response.status_code normalized) _ h3 in
    let (payload, _, h5) = >>=-eq-ok (body_of response.body) _ h4 in
    let (bars, series, made) =
      >>=-eq-ok (normalize_payload readers normalized start_date end_date payload) _ h5 in
    let same : record { price_bars = bars; stale = false } ≡ result = ground arith in
    rw (← same) (
      normalize_payload-IsSeries readers normalized start_date end_date payload bars series,
      refl,
      (
        response,
        response_of-answered sent response received,
        raise_for_http_status-below response.status_code normalized passed,
      ),
    )
