-- ===== src/Api/Isolation.antt =====
-- Portfolios of other users: no route reads or changes one.
use portfolio_analytics_api.Api.Csv.{parse_transaction_csv, CsvRead}
use portfolio_analytics_api.Api.Schemas.{new_transaction_of, TransactionInput, Pydantic}
use mathlib.Core.Path.{subst}
use portfolio_analytics_api.Api.Routes.{
  list_portfolio_insights_route, create_portfolio_insight_route, get_portfolio_analytics_route,
  commit_transaction_import_route, preview_transaction_import_route, create_transaction_route,
  list_transactions_route, get_portfolio_route, run_for, with_user, current_user, Credentials,
}
use portfolio_analytics_api.Services.Accounts.{AccessTokenService}
use portfolio_analytics_api.RateLimit.{RateLimitRule, RateLimitPolicies}
use portfolio_analytics_api.Api.Guards.{check, responded, run_checked, RateLimiter}
use portfolio_analytics_api.Common.Text.{text, Text}
use portfolio_analytics_api.Services.Import.Commit.{
  summarize_commit, commit_rows, assert_owned, commit,
}
use portfolio_analytics_api.Services.Import.Preview.{preview}
use portfolio_analytics_api.Services.Analytics.{analyze, Provider}
use portfolio_analytics_api.Services.Import.{TransactionImportCandidate}
use portfolio_analytics_api.Services.Payload.{NewTransaction}
use portfolio_analytics_api.Domain.Floats.{Floats}
use portfolio_analytics_api.Services.Insights.{
  record_insight, InsightGenerator, generate, list_snapshots,
}
use portfolio_analytics_api.Services.Transactions.{create, list_transactions}
use portfolio_analytics_api.Services.Portfolios.{get_portfolio}
use portfolio_analytics_api.Domain.Models.{
  User, Date, DateTime, Portfolio, AnalyticsMethodology, Uuid,
}
use portfolio_analytics_api.Common.{
  sym, ◌++◌, ap, Option, Bool, ◌==◌, ℕ, ◌⊎◌, List, ◌≡◌, inr, inl, some, none, false, refl,
}
use portfolio_analytics_api.Errors.{ok, Error, portfolio_not_found, Result, err}
use portfolio_analytics_api.Memory.{
  pure, lift, ◌>>=◌, portfolios_get_for_update, portfolios_get, get_entry, Action, InMemoryStore,
}

-- The portfolio is missing, or it belongs to somebody else.
abbrev pub IsForeign : Uuid → Uuid → InMemoryStore → Type 0
IsForeign owner_id portfolio_id st =
    (get_entry portfolio_id st.portfolios ≡ none)
    ⊎ ((portfolio : Portfolio) × (get_entry portfolio_id st.portfolios ≡ some portfolio)
        × ((portfolio.owner_id == owner_id) ≡ false))

-- The service answers that there is no such portfolio, and leaves the store as it was.
abbrev pub IsHidden : {A : Type 0} → Uuid → Action A → InMemoryStore → Type 0
IsHidden portfolio_id action st = action st ≡ (err (portfolio_not_found portfolio_id), st)

IsHidden->>= :
    {A B : Type 0} (portfolio_id : Uuid) (m : Action A) (f : A → Action B) (st : InMemoryStore)
    → IsHidden portfolio_id m st
    → IsHidden portfolio_id (m >>= f) st
IsHidden->>= portfolio_id m f st h =
    rw (◌>>=◌, h) (ap (λ w. (err (portfolio_not_found portfolio_id), w.1)) h)

module _ (owner_id portfolio_id : Uuid) (st : InMemoryStore)
    (foreign : IsForeign owner_id portfolio_id st) where
  get_portfolio-IsHidden : IsHidden portfolio_id (get_portfolio owner_id portfolio_id) st
  unfolding get_portfolio portfolios_get
  get_portfolio-IsHidden = elim foreign [
    | inl e ↦ rw (get_portfolio, portfolios_get, e) refl
    | inr (p, e, other) ↦ rw (get_portfolio, portfolios_get, e, other) refl
  ]

  list_transactions-IsHidden : IsHidden portfolio_id (list_transactions owner_id portfolio_id) st
  unfolding list_transactions portfolios_get
  list_transactions-IsHidden = elim foreign [
    | inl e ↦ rw (list_transactions, portfolios_get, e) refl
    | inr (p, e, other) ↦ rw (list_transactions, portfolios_get, e, other) refl
  ]

  create-IsHidden :
      (new : NewTransaction) (id : Uuid) (now : DateTime)
      → IsHidden portfolio_id (create owner_id portfolio_id new id now) st
  unfolding create portfolios_get_for_update
  create-IsHidden new id now = elim foreign [
    | inl e ↦ rw (create, portfolios_get_for_update, e) refl
    | inr (p, e, other) ↦ rw (create, portfolios_get_for_update, e, other) refl
  ]

  list_snapshots-IsHidden :
      (limit offset : ℕ)
      → IsHidden portfolio_id (list_snapshots owner_id portfolio_id limit offset) st
  unfolding list_snapshots portfolios_get
  list_snapshots-IsHidden limit offset = elim foreign [
    | inl e ↦ rw (list_snapshots, portfolios_get, e) refl
    | inr (p, e, other) ↦ rw (list_snapshots, portfolios_get, e, other) refl
  ]

  assert_owned-IsHidden : IsHidden portfolio_id (assert_owned owner_id portfolio_id) st
  unfolding assert_owned portfolios_get
  assert_owned-IsHidden = elim foreign [
    | inl e ↦ rw (assert_owned, portfolios_get, e) refl
    | inr (p, e, other) ↦ rw (assert_owned, portfolios_get, e, other) refl
  ]

  module _ (parser : List ℕ → Result (List TransactionImportCandidate)) (draw : ℕ → Uuid × DateTime)
      (csv_data : List ℕ) where
    preview-IsHidden : IsHidden portfolio_id (preview parser draw owner_id portfolio_id csv_data) st
    unfolding preview
    preview-IsHidden = rw (preview, list_transactions-IsHidden) refl

    commit-IsHidden : IsHidden portfolio_id (commit parser draw owner_id portfolio_id csv_data) st
    unfolding commit
    commit-IsHidden =
        IsHidden->>= portfolio_id (assert_owned owner_id portfolio_id)
          (λ portfolio. lift (parser csv_data) >>= λ candidates.
            commit_rows owner_id portfolio_id draw candidates 0 >>= λ rows.
            pure (summarize_commit rows))
          st assert_owned-IsHidden

  module _ (fl : Floats) (methodology : AnalyticsMethodology) (provider : Provider)
      (start_date end_date : Date) where
    analyze-IsHidden :
        IsHidden portfolio_id
          (analyze fl methodology provider owner_id portfolio_id start_date end_date)
          st
    unfolding analyze
    analyze-IsHidden = rw (analyze, list_transactions-IsHidden) refl

    generate-IsHidden :
        (mentions : Text → Bool) (generator : Option InsightGenerator) (id : Uuid) (now : DateTime)
        → IsHidden portfolio_id
            (generate fl methodology provider mentions generator owner_id portfolio_id start_date
              end_date id now)
            st
    unfolding generate
    generate-IsHidden mentions generator id now =
        IsHidden->>= portfolio_id
          (analyze fl methodology provider owner_id portfolio_id start_date end_date)
          (λ analytics.
            record_insight fl methodology provider mentions generator portfolio_id id now analytics)
          st analyze-IsHidden

-- The answer is an error, and the store is as it was.
abbrev pub IsDenied : {S A : Type 0} → InMemoryStore → Result A × (S × InMemoryStore) → Type 0
IsDenied st answer = (e : Error) × (answer.0 ≡ err e) × (answer.1.1 ≡ st)

-- Every route to a portfolio denies a request.
module _ {S : Type 0} (limiter : Option (RateLimiter S)) (policies : RateLimitPolicies)
    (tokens : AccessTokenService) (id_text : Uuid → Text) (presented : Option Credentials)
    (portfolio_id : Uuid) (s : S) (st : InMemoryStore) (validate : Pydantic)
    (decode : List ℕ → Option Text) (csv_reader : Text → CsvRead) (draw : ℕ → Uuid × DateTime)
    (csv_data : List ℕ) (fl : Floats) (methodology : AnalyticsMethodology) (provider : Provider)
    (mentions : Text → Bool) (generator : Option InsightGenerator) (request : TransactionInput)
    (start_date end_date : Date) (id : Uuid) (now : DateTime) (limit offset : ℕ) where
  abbrev pub AllDenied : Type 0
  AllDenied =
      IsDenied st
        (get_portfolio_route limiter policies tokens id_text presented portfolio_id (s, st))
      × IsDenied st
          (list_transactions_route limiter policies tokens id_text presented portfolio_id (s, st))
      × IsDenied st (
          create_transaction_route limiter policies tokens id_text presented portfolio_id request id
            now (s, st))
      × IsDenied st (
          preview_transaction_import_route limiter policies tokens id_text validate decode
            csv_reader draw presented portfolio_id csv_data (s, st))
      × IsDenied st (
          commit_transaction_import_route limiter policies tokens id_text validate decode csv_reader
            draw presented portfolio_id csv_data (s, st))
      × IsDenied st (
          get_portfolio_analytics_route limiter policies tokens id_text fl methodology provider
            presented portfolio_id start_date end_date (s, st))
      × IsDenied st (
          create_portfolio_insight_route limiter policies tokens id_text fl methodology provider
            mentions generator presented portfolio_id start_date end_date id now (s, st))
      × IsDenied st (
          list_portfolio_insights_route limiter policies tokens id_text presented portfolio_id limit
            offset (s, st))

module _ {S : Type 0} (limiter : Option (RateLimiter S)) (policies : RateLimitPolicies)
    (tokens : AccessTokenService) (id_text : Uuid → Text) (presented : Option Credentials)
    (user : User) (portfolio_id : Uuid) (s : S) (st : InMemoryStore)
    (known : current_user tokens presented st ≡ (ok user, st))
    (foreign : IsForeign user.id portfolio_id st) where
  run_checked-IsDenied :
      {A B : Type 0} (checked : Result (Unit {0}) × S) (action : Action A) (respond : A → B)
      → IsHidden portfolio_id action st
      → IsDenied st (run_checked limiter checked action respond st)
  run_checked-IsDenied (err e, s') action respond h = (e, refl, refl)
  run_checked-IsDenied (ok _, s') action respond h =
      (portfolio_not_found portfolio_id, ap (λ w. responded limiter respond w.0) h, ap (λ w. w.1) h)

  with_user-IsDenied :
      {A B : Type 0} (rule : RateLimitRule) (service : User → Action A) (respond : A → B)
      → IsHidden portfolio_id (service user) st
      → IsDenied st
          (with_user limiter policies tokens id_text rule presented service respond (s, st))
  unfolding with_user
  with_user-IsDenied rule service respond h =
      let checked =
        run_checked-IsDenied (check limiter rule (text "user:" ++ id_text user.id) s) (service user)
          respond h in
      subst
        (λ w.
          IsDenied st (run_for limiter policies tokens id_text rule service respond w.0 (s, w.1)))
        (sym known) checked

  -- A user who presents a valid token gets an error, and changes nothing in the store, on every
  -- route to a portfolio that is missing or belongs to another user: reading it, listing or adding
  -- transactions, both imports, the analysis, and making or listing insights.
  pub routes-IsDenied :
      (validate : Pydantic) (decode : List ℕ → Option Text) (csv_reader : Text → CsvRead)
      (draw : ℕ → Uuid × DateTime) (csv_data : List ℕ) (fl : Floats)
      (methodology : AnalyticsMethodology) (provider : Provider) (mentions : Text → Bool)
      (generator : Option InsightGenerator) (request : TransactionInput)
      (start_date end_date : Date) (id : Uuid) (now : DateTime) (limit offset : ℕ)
      → AllDenied limiter policies tokens id_text presented portfolio_id s st validate decode
          csv_reader draw csv_data fl methodology provider mentions generator request start_date
          end_date id now limit offset
  routes-IsDenied validate decode csv_reader draw csv_data fl methodology provider mentions
        generator request start_date end_date id now limit offset =
      let owner = user.id in
      let parser = parse_transaction_csv validate decode csv_reader in
      (
        with_user-IsDenied _ _ _ (get_portfolio-IsHidden owner portfolio_id st foreign),
        with_user-IsDenied _ _ _ (list_transactions-IsHidden owner portfolio_id st foreign),
        with_user-IsDenied _ _ _
            (create-IsHidden owner portfolio_id st foreign (new_transaction_of request) id now),
        with_user-IsDenied _ _ _
            (preview-IsHidden owner portfolio_id st foreign parser draw csv_data),
        with_user-IsDenied _ _ _
            (commit-IsHidden owner portfolio_id st foreign parser draw csv_data),
        with_user-IsDenied _ _ _ (
            analyze-IsHidden owner portfolio_id st foreign fl methodology provider start_date
              end_date),
        with_user-IsDenied _ _ _ (
            generate-IsHidden owner portfolio_id st foreign fl methodology provider start_date
              end_date mentions generator id now),
        with_user-IsDenied _ _ _
            (list_snapshots-IsHidden owner portfolio_id st foreign limit offset),
      )
