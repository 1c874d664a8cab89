-- ===== src/Examples/Routes.antt =====
-- The routes at a store with one user, and at the counters of a Redis.
use portfolio_analytics_api.Examples.Analyses.{market, policy, flat}
use portfolio_analytics_api.Api.Csv.{csv_malformed}
use portfolio_analytics_api.Examples.Imports.{plain_pydantic, input_of}
use portfolio_analytics_api.Domain.Models.{Portfolio}
use portfolio_analytics_api.Api.Schemas.{TransactionInput}
use portfolio_analytics_api.Services.Accounts.{authenticate}
use portfolio_analytics_api.RateLimit.{default_policies, bucket_key}
use portfolio_analytics_api.Api.Guards.{RateLimiter}
use portfolio_analytics_api.Examples.Stores.{plain_hasher, ada, plain_tokens}
use portfolio_analytics_api.Examples.Data.{day, drawn, opened}
use portfolio_analytics_api.Api.Isolation.{routes-IsDenied, AllDenied}
use portfolio_analytics_api.Memory.{users_get, InMemoryStore}
use portfolio_analytics_api.Common.Text.{lower, strip, text, strip_left, Text, is_space}
use portfolio_analytics_api.Common.{
  inr, false, ◌-◌, ◌≤◌, ◌≡◌, List, Option, ◌∷◌, [], some, none, refl,
}
use portfolio_analytics_api.Errors.{ok}
use portfolio_analytics_api.Api.Routes.{current_user, Credentials}
use portfolio_analytics_api.Api.Accounts.Attempts.{
  login_endpoint_bounded, answers, checked_passwords, Attempt,
}
use portfolio_analytics_api.Examples.Limits.{
  counters-IsCounting, used, counters, one_window, limiter,
}

route_runs : Unit {0}
unfolding is_space strip_left strip lower current_user authenticate users_get
route_runs = tt

-- Ada is known; the portfolio 7 belongs to the owner 1.
abbrev signed_up : InMemoryStore
signed_up = record opened { users = (5, ada) ∷ [] }

abbrev ticket : Option Credentials
ticket = some (record { scheme = text "Bearer"; credentials = 5 ∷ [] })

ticket-run : current_user plain_tokens ticket signed_up ≡ (ok ada, signed_up)
unfolding route_runs
ticket-run = refl

abbrev ada_limiter : Option (RateLimiter Unit)
ada_limiter = none

abbrev asked : TransactionInput
asked = input_of []

-- The portfolio 7, as the store has it.
abbrev main : Portfolio
main = record {
  id = 7;
  owner_id = 1;
  name = text "Main";
  base_currency = text "USD";
  transactions = [];
}

routes-IsDenied_example :
    AllDenied ada_limiter default_policies plain_tokens
      (λ id. id ∷ [])
      ticket
      7
      tt
      signed_up
      plain_pydantic
      (λ s. some s)
      (λ _. csv_malformed)
      drawn
      []
      flat
      policy
      market
      (λ _. false)
      none
      asked
      10
      12
      40
      (day 13)
      20
      0
routes-IsDenied_example =
    routes-IsDenied ada_limiter default_policies plain_tokens (λ id. id ∷ []) ticket ada 7 tt
      signed_up ticket-run (inr (main, refl, refl)) plain_pydantic (λ s. some s)
      (λ _. csv_malformed) drawn [] flat policy market (λ _. false) none asked 10 12 40 (day 13) 20
      0

abbrev attempts : List Attempt
attempts =
    record { ip = text "1"; password = text "a"; now = 0 }
    ∷ record { ip = text "2"; password = text "b"; now = 0 }
    ∷ []

abbrev email_key : Text
email_key = bucket_key one_window limiter default_policies.login_email 0 (text "email:ada@x.org")

login_endpoint_bounded_example :
    checked_passwords (
      answers counters one_window limiter default_policies plain_hasher plain_tokens
        (text "ada@x.org")
        attempts
        ([], signed_up))
    ≤ 5 - used email_key []
login_endpoint_bounded_example =
    login_endpoint_bounded counters one_window limiter default_policies plain_hasher plain_tokens
      (text "ada@x.org") used counters-IsCounting email_key attempts ([], signed_up)
      (refl, (refl, tt))
