-- ===== src/Api/Accounts/Attempts.antt =====
-- How many passwords can be tried for an address: the login route with the counters of Redis.
use portfolio_analytics_api.Memory.{InMemoryStore}
use portfolio_analytics_api.Api.Accounts.{login_endpoint}
use portfolio_analytics_api.RateLimit.Counting.{
  enforce-IsCounted, is_hit, enforce-count, enforce-cases, enforce_request, key_of, IsCounting,
  Request,
}
use portfolio_analytics_api.Api.Guards.{Endpoint, RateLimiter}
use portfolio_analytics_api.Services.Accounts.{AccessTokenService, PasswordHasher}
use portfolio_analytics_api.Domain.Models.{Float}
use portfolio_analytics_api.RateLimit.{enforce, RateLimitPolicies, Limiter, Arithmetic, RedisServer}
use portfolio_analytics_api.Api.Responses.{AccessTokenResponse}
use portfolio_analytics_api.Common.Text.{text_eq_refl, text, Text}
use portfolio_analytics_api.Common.{
  ◌-◌, if◌then◌else◌, refl, Bool-cases, ◌<◌, ◌+◌, ◌⊎◌, ◌≡◌, ◌≤◌, ◌++◌, All, ℕ, List, Bool, arith,
  inr, inl, ◌∷◌, [], some, false, true,
}
use portfolio_analytics_api.Errors.{invalid_credentials, Result, ok, err}

-- The parts of a login that vary, the address of the account apart.
pub record Attempt : Type 0 where
  pub ip : Text
  pub password : Text
  pub now : Float

-- The service has looked at the password.
abbrev pub is_checked : Result AccessTokenResponse → Bool
is_checked (ok _) = true
is_checked (err invalid_credentials) = true
is_checked (err _) = false

abbrev pub checked_passwords : List (Result AccessTokenResponse) → ℕ
checked_passwords [] = 0
checked_passwords (r ∷ results) =
    if is_checked r then 1 + checked_passwords results else checked_passwords results

module _ {S : Type 0} (server : RedisServer S) (ar : Arithmetic) (limiter : Limiter)
    (policies : RateLimitPolicies) (hasher : PasswordHasher) (tokens : AccessTokenService)
    (email : Text) where
  abbrev pub limiter_at : Float → RateLimiter S
  limiter_at now rule identifier s = enforce server ar limiter rule identifier now s

  abbrev pub attempt_login : Attempt → Endpoint S AccessTokenResponse
  attempt_login a =
      login_endpoint (some (limiter_at a.now)) policies hasher tokens a.ip email a.password

  -- The answers to some attempts, one after the other.
  abbrev pub answers : List Attempt → S × InMemoryStore → List (Result AccessTokenResponse)
  answers [] w = []
  answers (a ∷ attempts) w = let (answer, w') = attempt_login a w in answer ∷ answers attempts w'

  abbrev pub ip_request : Attempt → Request
  ip_request a = record { rule = policies.login_ip; identifier = text "ip:" ++ a.ip; now = a.now }

  abbrev pub email_request : Attempt → Request
  email_request a = record {
    rule = policies.login_email;
    identifier = text "email:" ++ email;
    now = a.now;
  }

  -- The attempts count for one key: the limiter can encode the address, and they fall in one window.
  abbrev pub IsSameWindow : Text → List Attempt → Type 0
  IsSameWindow key attempts =
      All (λ a. key_of server ar limiter (email_request a) ≡ some key) attempts

  module _ (count : Text → S → ℕ) (laws : IsCounting server count) (key : Text) where
    enforce_mono :
        (r : Request) (s : S) → count key s ≤ count key (enforce_request server ar limiter r s).1
    enforce_mono r s =
        let one = enforce-count server ar limiter count laws r key s in
        elim (Bool-cases (is_hit server ar limiter key (key_of server ar limiter r))) [
          | inl hit ↦ (let more = rw hit at one in ground arith)
          | inr miss ↦ (let same = rw miss at one in ground arith)
        ]

    enforce_hit :
        (r : Request) (s : S)
        → key_of server ar limiter r ≡ some key
        → count key (enforce_request server ar limiter r s).1 ≡ count key s + 1
    enforce_hit r s e =
        let one = enforce-count server ar limiter count laws r key s in
        rw (e, text_eq_refl key) at one

    -- An attempt that is turned away, or one that counts.
    record IsStep (a : Attempt) (w : S × InMemoryStore) : Type 0 where
      outcome :
          ((is_checked (attempt_login a w).0 ≡ false)
            × (count key w.0 ≤ count key (attempt_login a w).1.0))
          ⊎ ((count key w.0 < policies.login_email.limit)
              × (count key w.0 + 1 ≤ count key (attempt_login a w).1.0))

    attempt_login-IsStep :
        (a : Attempt) (w : S × InMemoryStore)
        → key_of server ar limiter (email_request a) ≡ some key
        → IsStep a w
    unfolding login_endpoint
    attempt_login-IsStep a (s, st) e =
        let first = enforce-cases server ar limiter (ip_request a) s in
        let s1 = (enforce_request server ar limiter (ip_request a) s).1 in
        let grown = enforce_mono (ip_request a) s in
        let second = enforce-IsCounted server ar limiter count laws [] (email_request a) key s1 e in
        let counted = enforce_hit (email_request a) s1 e in
        elim first [
          | inr (inl bad) ↦ record { outcome = rw (login_endpoint, bad) (inl (refl, grown)) }
          | inr (inr (n, bad)) ↦ record { outcome = rw (login_endpoint, bad) (inl (refl, grown)) }
          | inl fine ↦ elim second [
            | inl (less, passed) ↦ record {
              outcome = rw (login_endpoint, fine, passed) (inr (ground arith, ground arith));
            }
            | inr (_, (n, _, refused)) ↦ record {
              outcome = rw (login_endpoint, fine, refused) (inl (refl, ground arith));
            }
          ]
        ]

    one_step :
        (limit before after checked : ℕ) (b : Bool)
        → ((b ≡ false) × (before ≤ after)) ⊎ ((before < limit) × (before + 1 ≤ after))
        → checked ≤ limit - after
        → (if b then 1 + checked else checked) ≤ limit - before
    one_step limit before after checked true h k = elim h [
      | inl (bad, _) ↦ absurd (cc)
      | inr (less, more) ↦ ground arith
    ]
    one_step limit before after checked false h k = elim h [
      | inl (_, more) ↦ ground arith
      | inr (less, more) ↦ ground arith
    ]

    -- With a limiter in place, over a Redis whose commands succeed and count, whose scripts run to
    -- their end and whose counters do not expire meanwhile, and for an address that the limiter can
    -- encode: of any sequence of logins for that address in one window, from whatever client
    -- addresses and with whatever passwords, the service looks at the passwords of at most as many
    -- as the rule for an address admits, less those that the counter has already seen; the others
    -- get another error.
    pub login_endpoint_bounded :
        (attempts : List Attempt) (w : S × InMemoryStore)
        → IsSameWindow key attempts
        → checked_passwords (answers attempts w) ≤ policies.login_email.limit - count key w.0
    login_endpoint_bounded [] w e = ground arith
    login_endpoint_bounded (a ∷ attempts) w e =
        let rest = login_endpoint_bounded attempts (attempt_login a w).1 e.1 in
        let step = (attempt_login-IsStep a w e.0).outcome in
        one_step policies.login_email.limit (count key w.0) (count key (attempt_login a w).1.0) _
          (is_checked (attempt_login a w).0) step rest
