-- ===== src/Api/Guards.antt =====
-- What stands before the services in api/auth_routes.py and api/routes.py: the limits of a request
-- and the user that it comes from. A request changes the limiter's state and the store.
use portfolio_analytics_api.Common.Text.{Text}
use portfolio_analytics_api.RateLimit.{RateLimitRule}
use portfolio_analytics_api.Common.{Option, some, none}
use portfolio_analytics_api.Errors.{Result, ok, err}
use portfolio_analytics_api.Memory.{Action, InMemoryStore}

-- `RateLimiter` of application/ports.py, at the time of a request.
abbrev pub RateLimiter : Type 0 → Type 0
RateLimiter S = RateLimitRule → Text → S → Result (Unit {0}) × S

abbrev pub Endpoint : Type 0 → Type 0 → Type 0
Endpoint S A = S × InMemoryStore → Result A × (S × InMemoryStore)

module _ {S : Type 0} (limiter : Option (RateLimiter S)) where
  -- `if rate_limiter is not None: await rate_limiter.enforce(…)`
  abbrev pub check_with : Option (RateLimiter S) → RateLimitRule → Text → S → Result (Unit {0}) × S
  check_with none rule identifier s = (ok tt, s)
  check_with (some enforce) rule identifier s = enforce rule identifier s

  abbrev pub check : RateLimitRule → Text → S → Result (Unit {0}) × S
  check rule identifier s = check_with limiter rule identifier s

  abbrev pub and_then : Result (Unit {0}) × S → (S → Result (Unit {0}) × S) → Result (Unit {0}) × S
  and_then (err e, s) next = (err e, s)
  and_then (ok _, s) next = next s

  abbrev pub responded : {A B : Type 0} → (A → B) → Result A → Result B
  responded respond (err e) = err e
  responded respond (ok a) = ok (respond a)

  -- The service after the limits, and its response.
  abbrev pub run_checked :
      {A B : Type 0}
      → Result (Unit {0}) × S
      → Action A
      → (A → B)
      → InMemoryStore
      → Result B × (S × InMemoryStore)
  run_checked (err e, s) action respond st = (err e, (s, st))
  run_checked (ok _, s) action respond st =
      let (r, st') = action st in (responded respond r, (s, st'))
