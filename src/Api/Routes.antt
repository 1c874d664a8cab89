-- ===== src/Api/Routes.antt =====
-- api/routes.py: the user behind a request, the limits, and the routes over the services. Bodies and
-- queries have passed their schemas. The responses of the analysis and of the insights copy the
-- services' results and are left as these.
use portfolio_analytics_api.Services.Import.Commit.{commit}
use portfolio_analytics_api.Services.Import.Preview.{preview}
use portfolio_analytics_api.Services.Transactions.{list_transactions, create}
use portfolio_analytics_api.Services.Analytics.{analyze, Provider}
use portfolio_analytics_api.Api.Csv.{parse_transaction_csv, CsvRead}
use portfolio_analytics_api.Services.Portfolios.{get_portfolio, list_portfolios, create_portfolio}
use portfolio_analytics_api.Services.Insights.{
  generate, InsightGenerator, list_snapshots, AnalysisSnapshotPage,
}
use portfolio_analytics_api.Api.Responses.{
  commit_response, preview_response, transaction_response, creation_response, CommitResponse,
  PreviewResponse, portfolio_page_response, portfolio_response, TransactionResponse,
  PortfolioPageResponse, PortfolioResponse,
}
use portfolio_analytics_api.Domain.Floats.{Floats}
use portfolio_analytics_api.Api.Schemas.{new_transaction_of, Pydantic, TransactionInput}
use portfolio_analytics_api.RateLimit.{RateLimitRule, RateLimitPolicies}
use portfolio_analytics_api.Api.Guards.{check, run_checked, Endpoint, RateLimiter}
use portfolio_analytics_api.Domain.Models.{
  PortfolioInsight, PortfolioAnalytics, Date, AnalyticsMethodology, DateTime, Uuid, User,
}
use portfolio_analytics_api.Services.Accounts.{authenticate, AccessTokenService}
use portfolio_analytics_api.Common.Text.{text, lower, text_eq, Text}
use portfolio_analytics_api.Common.{
  map, ◌++◌, Bool, List, not, ℕ, if◌then◌else◌, Option, some, none,
}
use portfolio_analytics_api.Errors.{invalid_access_token, Result, ok, err}
use portfolio_analytics_api.Memory.{lift, Action}

-- `HTTPAuthorizationCredentials`
pub record Credentials : Type 0 where
  pub scheme : Text
  pub credentials : Text

-- `current_user`
unfoldable pub current_user : AccessTokenService → Option Credentials → Action User
current_user tokens none = lift (err invalid_access_token)
current_user tokens (some c) =
    if not (text_eq (lower c.scheme) (text "bearer"))
    then lift (err invalid_access_token)
    else authenticate tokens c.credentials

module _ {S : Type 0} (limiter : Option (RateLimiter S)) (policies : RateLimitPolicies)
    (tokens : AccessTokenService) (id_text : Uuid → Text) where
  -- The limit and the service of a user who is known.
  abbrev pub run_for :
      {A B : Type 0} → RateLimitRule → (User → Action A) → (A → B) → Result User → Endpoint S B
  run_for rule service respond (err e) (s, st) = (err e, (s, st))
  run_for rule service respond (ok user) (s, st) =
      run_checked limiter (check limiter rule (text "user:" ++ id_text user.id) s) (service user)
        respond st

  -- A route: `current_user`, then `standard_user`, `analytics_user` or `insights_user` by their
  -- rules, then the service.
  unfoldable pub with_user :
      {A B : Type 0}
      → RateLimitRule
      → Option Credentials
      → (User → Action A)
      → (A → B)
      → Endpoint S B
  unfolding current_user
  with_user rule presented service respond (s, st) =
      let (user, st') = current_user tokens presented st in
      run_for rule service respond user (s, st')

  abbrev pub create_portfolio_route :
      Option Credentials → Text → Text → Uuid → Endpoint S PortfolioResponse
  create_portfolio_route presented name base_currency id =
      with_user policies.authenticated_user presented
        (λ user. create_portfolio user.id name base_currency id) portfolio_response

  abbrev pub list_portfolios_route : Option Credentials → ℕ → ℕ → Endpoint S PortfolioPageResponse
  list_portfolios_route presented limit offset =
      with_user policies.authenticated_user presented (λ user. list_portfolios user.id limit offset)
        portfolio_page_response

  abbrev pub get_portfolio_route : Option Credentials → Uuid → Endpoint S PortfolioResponse
  get_portfolio_route presented portfolio_id =
      with_user policies.authenticated_user presented (λ user. get_portfolio user.id portfolio_id)
        portfolio_response

  abbrev pub create_transaction_route :
      Option Credentials
      → Uuid
      → TransactionInput
      → Uuid
      → DateTime
      → Endpoint S (ℕ × TransactionResponse)
  create_transaction_route presented portfolio_id request id now =
      with_user policies.authenticated_user presented
        (λ user. create user.id portfolio_id (new_transaction_of request) id now) creation_response

  abbrev pub list_transactions_route :
      Option Credentials → Uuid → Endpoint S (List TransactionResponse)
  list_transactions_route presented portfolio_id =
      with_user policies.authenticated_user presented
        (λ user. list_transactions user.id portfolio_id) (map transaction_response)

  -- The imports, with `parse_transaction_csv` as the parser.
  module _ (validate : Pydantic) (decode : List ℕ → Option Text) (csv_reader : Text → CsvRead)
      (draw : ℕ → Uuid × DateTime) where
    abbrev pub preview_transaction_import_route :
        Option Credentials → Uuid → List ℕ → Endpoint S PreviewResponse
    preview_transaction_import_route presented portfolio_id csv_data =
        with_user policies.authenticated_user presented
          (λ user.
            preview (parse_transaction_csv validate decode csv_reader) draw user.id portfolio_id
              csv_data)
          preview_response

    abbrev pub commit_transaction_import_route :
        Option Credentials → Uuid → List ℕ → Endpoint S CommitResponse
    commit_transaction_import_route presented portfolio_id csv_data =
        with_user policies.authenticated_user presented
          (λ user.
            commit (parse_transaction_csv validate decode csv_reader) draw user.id portfolio_id
              csv_data)
          commit_response

  module _ (fl : Floats) (methodology : AnalyticsMethodology) (provider : Provider) where
    abbrev pub get_portfolio_analytics_route :
        Option Credentials → Uuid → Date → Date → Endpoint S PortfolioAnalytics
    get_portfolio_analytics_route presented portfolio_id start_date end_date =
        with_user policies.analytics_user presented
          (λ user. analyze fl methodology provider user.id portfolio_id start_date end_date)
          (λ analytics. analytics)

    abbrev pub create_portfolio_insight_route :
        (Text → Bool)
        → Option InsightGenerator
        → Option Credentials
        → Uuid
        → Date
        → Date
        → Uuid
        → DateTime
        → Endpoint S PortfolioInsight
    create_portfolio_insight_route mentions generator presented portfolio_id start_date end_date id
          now =
        with_user policies.insights_user presented
          (λ user.
            generate fl methodology provider mentions generator user.id portfolio_id start_date
              end_date id now)
          (λ insight. insight)

  abbrev pub list_portfolio_insights_route :
      Option Credentials → Uuid → ℕ → ℕ → Endpoint S AnalysisSnapshotPage
  list_portfolio_insights_route presented portfolio_id limit offset =
      with_user policies.insights_user presented
        (λ user. list_snapshots user.id portfolio_id limit offset) (λ page. page)
