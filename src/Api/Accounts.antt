-- ===== src/Api/Accounts.antt =====
-- api/auth_routes.py: the two routes, each behind its limits. The identifier of the client's address
-- and the new user's identifier are arguments.
use portfolio_analytics_api.Api.Responses.{
  user_response, access_token_response, AccessTokenResponse, UserResponse,
}
use portfolio_analytics_api.Errors.{Result}
use portfolio_analytics_api.Domain.Models.{Uuid}
use portfolio_analytics_api.Common.Text.{text, Text}
use portfolio_analytics_api.Services.Accounts.{register, login, AccessTokenService, PasswordHasher}
use portfolio_analytics_api.RateLimit.{RateLimitPolicies}
use portfolio_analytics_api.Api.Guards.{check, run_checked, and_then, Endpoint, RateLimiter}
use portfolio_analytics_api.Common.{◌++◌, Option}
use portfolio_analytics_api.Memory.{Action, InMemoryStore}
pub mod Attempts

module _ {S : Type 0} (limiter : Option (RateLimiter S)) (policies : RateLimitPolicies)
    (hasher : PasswordHasher) where
  -- `register`
  unfoldable pub register_endpoint : Text → Text → Text → Uuid → Endpoint S UserResponse
  register_endpoint ip email password id (s, st) =
      run_checked limiter (check limiter policies.registration_ip (text "ip:" ++ ip) s)
        (register hasher email password id) user_response st

  -- The two limits of `login`.
  abbrev pub login_checks : Text → Text → S → Result (Unit {0}) × S
  login_checks ip email s =
      and_then limiter (check limiter policies.login_ip (text "ip:" ++ ip) s)
        (check limiter policies.login_email (text "email:" ++ email))

  -- `login`
  unfoldable pub login_endpoint :
      AccessTokenService → Text → Text → Text → Endpoint S AccessTokenResponse
  login_endpoint tokens ip email password (s, st) =
      run_checked limiter (login_checks ip email s) (login hasher tokens email password)
        access_token_response st
