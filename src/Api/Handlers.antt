-- ===== src/Api/Handlers.antt =====
-- The exception handlers of api/app.py: the status and the code of an error response. An exception
-- without a handler becomes the framework's status 500.
use portfolio_analytics_api.Common.Text.{text, Text}
use portfolio_analytics_api.Common.{Option, ℕ, some, none}
use portfolio_analytics_api.Errors.{
  insight_generation, csv_error, type_error, assertion_error, value_error, import_format,
  market_data_timeout, market_data_unavailable, market_data_rate_limit, invalid_access_token,
  invalid_credentials, invalid_valuation, invalid_price_series, invalid_transaction,
  idempotency_conflict, analytics_unavailable, market_data_invalid_response, market_data_not_found,
  portfolio_already_exists, portfolio_not_found, rate_limit_exceeded, email_already_registered,
  Error,
}

pub record ErrorResponse : Type 0 where
  pub status_code : ℕ
  pub code : Text

abbrev pub response_with : ℕ → Text → Option ErrorResponse
response_with status_code code = some (record { status_code = status_code; code = code })

-- `none` where no handler is registered for the exception or a base class of it.
abbrev pub handle_error : Error → Option ErrorResponse
handle_error invalid_credentials = response_with 401 (text "authentication_failed")
handle_error invalid_access_token = response_with 401 (text "authentication_failed")
handle_error (email_already_registered _) = response_with 409 (text "email_already_registered")
handle_error (rate_limit_exceeded _) = response_with 429 (text "rate_limited")
handle_error (portfolio_not_found _) = response_with 404 (text "portfolio_not_found")
handle_error (portfolio_already_exists _) = response_with 409 (text "portfolio_conflict")
handle_error (market_data_not_found _) = response_with 422 (text "market_data_not_found")
handle_error (market_data_invalid_response _) =
    response_with 502 (text "market_data_invalid_response")
handle_error market_data_rate_limit = response_with 503 (text "market_data_rate_limited")
handle_error market_data_unavailable = response_with 503 (text "market_data_unavailable")
handle_error market_data_timeout = response_with 504 (text "market_data_timeout")
handle_error (analytics_unavailable _) = response_with 422 (text "analytics_unavailable")
handle_error (idempotency_conflict _ _) =
    response_with 409 (text "transaction_idempotency_conflict")
handle_error import_format = response_with 422 (text "csv_import_invalid")
handle_error (invalid_transaction _) = response_with 422 (text "invalid_transaction")
handle_error (invalid_price_series _) = response_with 422 (text "invalid_price_series")
handle_error (invalid_valuation _) = none
handle_error insight_generation = none
handle_error value_error = none
handle_error assertion_error = none
handle_error type_error = none
handle_error csv_error = none
