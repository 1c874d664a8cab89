-- ===== src/MarketData/TwelveData/Refused.antt =====
-- Which exceptions a Twelve Data response can raise.
use portfolio_analytics_api.MarketData.Series.{seen_date}
use portfolio_analytics_api.Decimal.{not_above_zero, is_finite, Decimal}
use portfolio_analytics_api.Domain.Models.{PriceBar, Date}
use portfolio_analytics_api.MarketData.TwelveData.{
  max_output_size, has_timezone, sorted_bars, positive_close, collect_rows, parse_adjusted_close,
  session_of, parse_session_date, refuse_error, as_array, as_object, normalize_payload, Readers,
  check_payload, raise_for_provider_error,
}
use portfolio_analytics_api.MarketData.Json.{
  float, int, boolean, string, array, equals_text, int_from, equals_int, unhashable, null, Fields,
  get_field, object, Json,
}
use portfolio_analytics_api.Common.Text.{text, Text}
use portfolio_analytics_api.Common.{
  length, ◌&&◌, leb, not, List, Option, Bool, ◌∷◌, [], some, none, false, ◌||◌, Bool-cases, ◌≡◌,
  ◌⊎◌, inr, inl, true, refl,
}
use portfolio_analytics_api.Errors.{
  values_missing, RaisesOnly-raise_if, RaisesOnly-err, row_not_object, raise_if, err,
  RaisesOnly->>=, ResponseFault, market_data_unavailable, market_data_rate_limit,
  market_data_invalid_response, type_error, RaisesOnly, market_data_not_found, Error,
}

-- The exceptions that the adapter means to raise.
abbrev pub IsResponseError : Text → Error → Type 0
IsResponseError symbol market_data_rate_limit = Unit
IsResponseError symbol market_data_unavailable = Unit
IsResponseError symbol (market_data_not_found s) = s ≡ symbol
IsResponseError symbol (market_data_invalid_response _) = Unit
IsResponseError symbol _ = ⊥

-- The error code of a payload that is an object.
abbrev pub error_code : Json → Json
error_code (object fields) = get_field (text "code") fields
error_code _ = null

-- One of those, or the `TypeError` of an error code that is a list or an object.
abbrev pub IsRefusal : Text → Json → Error → Type 0
IsRefusal symbol code e = IsResponseError symbol e ⊎ ((e ≡ type_error) × (unhashable code ≡ true))

module _ (symbol : Text) where
  raise_for_provider_error-IsRefusal :
      (fields : Fields)
      → RaisesOnly
          (IsRefusal symbol (get_field (text "code") fields))
          (raise_for_provider_error fields symbol)
  unfolding raise_for_provider_error
  raise_for_provider_error-IsRefusal fields =
      let code = get_field (text "code") fields in
      elim (Bool-cases (equals_int code 429)) [
        | inl limited ↦ rw limited (inl tt)
        | inr other ↦ elim (Bool-cases (unhashable code)) [
          | inl bad ↦ rw (other, bad) (inr (refl, bad))
          | inr fine ↦ elim (Bool-cases (equals_int code 400 || equals_int code 404)) [
            | inl missing ↦ rw (other, fine, missing) (inl refl)
            | inr found ↦ elim (Bool-cases (int_from code 500)) [
              | inl down ↦ rw (other, fine, found, down) (inl tt)
              | inr up ↦ rw (other, fine, found, up) (inl tt)
            ]
          ]
        ]
      ]

  as_object-RaisesOnly :
      (code j : Json) (fault : ResponseFault)
      → RaisesOnly (IsRefusal symbol code) (as_object j fault)
  as_object-RaisesOnly code (object _) fault = tt
  as_object-RaisesOnly code (array _) fault = inl tt
  as_object-RaisesOnly code null fault = inl tt
  as_object-RaisesOnly code (boolean _) fault = inl tt
  as_object-RaisesOnly code (int _) fault = inl tt
  as_object-RaisesOnly code (float _) fault = inl tt
  as_object-RaisesOnly code (string _) fault = inl tt

  as_array-RaisesOnly :
      (code j : Json) (fault : ResponseFault)
      → RaisesOnly (IsRefusal symbol code) (as_array j fault)
  as_array-RaisesOnly code (array _) fault = tt
  as_array-RaisesOnly code (object _) fault = inl tt
  as_array-RaisesOnly code null fault = inl tt
  as_array-RaisesOnly code (boolean _) fault = inl tt
  as_array-RaisesOnly code (int _) fault = inl tt
  as_array-RaisesOnly code (float _) fault = inl tt
  as_array-RaisesOnly code (string _) fault = inl tt

  refuse_error-RaisesOnly :
      (b : Bool) (fields : Fields)
      → RaisesOnly
          (IsRefusal symbol (get_field (text "code") fields))
          (refuse_error b fields symbol)
  refuse_error-RaisesOnly true fields = raise_for_provider_error-IsRefusal fields
  refuse_error-RaisesOnly false fields = tt

  check_fields-RaisesOnly :
      (payload : Json)
      → RaisesOnly (IsRefusal symbol (error_code payload)) (check_payload symbol payload)
  unfolding check_payload
  check_fields-RaisesOnly (object fields) =
      let P = IsRefusal symbol (get_field (text "code") fields) in
      let status = get_field (text "status") fields in
      RaisesOnly->>= P (refuse_error (equals_text status (text "error")) fields symbol) _
        (refuse_error-RaisesOnly _ fields)
        (λ _.
          RaisesOnly->>= P (raise_if (not (equals_text status (text "ok"))) _) _
            (RaisesOnly-raise_if P _ _ (inl tt))
            (λ _.
              RaisesOnly->>= P (raise_if (not (has_timezone (get_field (text "meta") fields))) _) _
                (RaisesOnly-raise_if P _ _ (inl tt))
                (λ _.
                  RaisesOnly->>= P (as_array (get_field (text "values") fields) values_missing) _
                    (as_array-RaisesOnly _ _ _)
                    (λ values.
                      RaisesOnly->>= P (raise_if (leb max_output_size (length values)) _) _
                        (RaisesOnly-raise_if P _ _ (inl tt)) (λ _. tt)))))
  check_fields-RaisesOnly (array _) = inl tt
  check_fields-RaisesOnly null = inl tt
  check_fields-RaisesOnly (boolean _) = inl tt
  check_fields-RaisesOnly (int _) = inl tt
  check_fields-RaisesOnly (float _) = inl tt
  check_fields-RaisesOnly (string _) = inl tt

  module _ (readers : Readers) (code : Json) where
    session_of-RaisesOnly :
        (o : Option Date) → RaisesOnly (IsRefusal symbol code) (session_of readers o)
    session_of-RaisesOnly none = inl tt
    session_of-RaisesOnly (some d) = tt

    parse_session_date-RaisesOnly :
        (j : Json) → RaisesOnly (IsRefusal symbol code) (parse_session_date readers j)
    parse_session_date-RaisesOnly (string s) = session_of-RaisesOnly (readers.date_from_iso s)
    parse_session_date-RaisesOnly (object _) = inl tt
    parse_session_date-RaisesOnly (array _) = inl tt
    parse_session_date-RaisesOnly null = inl tt
    parse_session_date-RaisesOnly (boolean _) = inl tt
    parse_session_date-RaisesOnly (int _) = inl tt
    parse_session_date-RaisesOnly (float _) = inl tt

    positive_close-RaisesOnly :
        (o : Option Decimal) (d : Date)
        → RaisesOnly (IsRefusal symbol code) (positive_close readers o d)
    positive_close-RaisesOnly none d = inl tt
    positive_close-RaisesOnly (some p) d =
        elim (Bool-cases (not (is_finite p) || not_above_zero p)) [
          | inl bad ↦ rw bad (inl tt)
          | inr fine ↦ rw fine tt
        ]

    parse_adjusted_close-RaisesOnly :
        (j : Json) (d : Date)
        → RaisesOnly (IsRefusal symbol code) (parse_adjusted_close readers j d)
    parse_adjusted_close-RaisesOnly (string s) d =
        positive_close-RaisesOnly (readers.decimal_from_text s) d
    parse_adjusted_close-RaisesOnly (object _) d = inl tt
    parse_adjusted_close-RaisesOnly (array _) d = inl tt
    parse_adjusted_close-RaisesOnly null d = inl tt
    parse_adjusted_close-RaisesOnly (boolean _) d = inl tt
    parse_adjusted_close-RaisesOnly (int _) d = inl tt
    parse_adjusted_close-RaisesOnly (float _) d = inl tt

    module _ (start_date end_date : Date) where
      collect_rows-RaisesOnly :
          (rows : List Json) (seen : List Date)
          → RaisesOnly
              (IsRefusal symbol code)
              (collect_rows readers symbol start_date end_date rows seen)
      unfolding collect_rows
      collect_rows-RaisesOnly [] seen = tt
      collect_rows-RaisesOnly (row ∷ rows) seen =
          let P = IsRefusal symbol code in
          RaisesOnly->>= P (as_object row row_not_object) _ (as_object-RaisesOnly code row _)
            (λ fields.
              RaisesOnly->>= P (parse_session_date readers (get_field (text "datetime") fields)) _
                (parse_session_date-RaisesOnly _)
                (λ session. elim (Bool-cases (leb start_date session && leb session end_date)) [
                  | inr outside ↦ rw outside (collect_rows-RaisesOnly rows seen)
                  | inl inside ↦ rw inside (
                      RaisesOnly->>= P (raise_if (seen_date session seen) _) _
                        (RaisesOnly-raise_if P _ _ (inl tt))
                        (λ _.
                          RaisesOnly->>= P
                            (parse_adjusted_close readers (get_field (text "close") fields) session)
                            _ (parse_adjusted_close-RaisesOnly _ session)
                            (λ price.
                              RaisesOnly->>= P
                                (collect_rows readers symbol start_date end_date rows
                                  (session ∷ seen))
                                _ (collect_rows-RaisesOnly rows (session ∷ seen)) (λ rest. tt))))
                ]))

      sorted_bars-RaisesOnly :
          (bars : List PriceBar)
          → RaisesOnly (IsRefusal symbol code) (sorted_bars readers symbol start_date end_date bars)
      sorted_bars-RaisesOnly [] = inl refl
      sorted_bars-RaisesOnly (b ∷ bars) = tt

-- Whatever JSON document the provider sends, a refusal is one of the errors of market data, about
-- the symbol asked for; or it is a `TypeError`, and then the document's error code is a list or an
-- object.
pub normalize_payload-IsRefusal :
    (readers : Readers) (symbol : Text) (start_date end_date : Date) (payload : Json) (e : Error)
    → normalize_payload readers symbol start_date end_date payload ≡ err e
    → IsRefusal symbol (error_code payload) e
unfolding normalize_payload
normalize_payload-IsRefusal readers symbol start_date end_date payload e h =
    let code = error_code payload in
    let P = IsRefusal symbol code in
    RaisesOnly-err P (normalize_payload readers symbol start_date end_date payload) e
      (RaisesOnly->>= P (check_payload symbol payload) _ (check_fields-RaisesOnly symbol payload)
        (λ values.
          RaisesOnly->>= P (collect_rows readers symbol start_date end_date values []) _
            (collect_rows-RaisesOnly symbol readers code start_date end_date values [])
            (λ bars. sorted_bars-RaisesOnly symbol readers code start_date end_date bars)))
      h
