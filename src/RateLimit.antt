-- ===== src/RateLimit.antt =====
-- infrastructure/rate_limit.py, `RateLimitRule` of application/ports.py and api/rate_limit.py. Redis,
-- the arithmetic of the float clock, the keyed digest, decimal digits and the parser of IP addresses
-- are arguments.
use portfolio_analytics_api.Domain.Models.{Float}
use portfolio_analytics_api.Common.Int.{negsuc, pos, ℤ}
use portfolio_analytics_api.Common.Text.{strip, is_empty, text, Text}
use portfolio_analytics_api.Common.{
  ◌||◌, ◌*◌, ltb, ◌==◌, ◌+◌, if◌then◌else◌, ◌++◌, Bool, ℕ, Option, List, ◌∷◌, [], some, none, false,
  true,
}
use portfolio_analytics_api.Errors.{
  rate_limit_exceeded, value_error, raise_if, Result, ok, err, ◌>>=◌, ◌>>◌,
}
pub mod Counting

pub record RateLimitRule : Type 0 where
  pub scope : Text
  pub limit : ℕ
  pub window_seconds : ℕ

-- `__post_init__`
unfoldable pub make_rule : Text → ℕ → ℕ → Result RateLimitRule
make_rule scope limit window_seconds = do
  raise_if (is_empty scope || ltb limit 1 || ltb window_seconds 1) value_error
  ok (record { scope = scope; limit = limit; window_seconds = window_seconds })

pub record RateLimitPolicies : Type 0 where
  pub registration_ip : RateLimitRule
  pub login_ip : RateLimitRule
  pub login_email : RateLimitRule
  pub analytics_user : RateLimitRule
  pub insights_user : RateLimitRule
  pub authenticated_user : RateLimitRule

-- The defaults.
abbrev pub default_policies : RateLimitPolicies
default_policies = record {
  registration_ip = record { scope = text "registration_ip"; limit = 5; window_seconds = 600 };
  login_ip = record { scope = text "login_ip"; limit = 10; window_seconds = 600 };
  login_email = record { scope = text "login_email"; limit = 5; window_seconds = 600 };
  analytics_user = record { scope = text "analytics_user"; limit = 20; window_seconds = 60 };
  insights_user = record { scope = text "insights_user"; limit = 10; window_seconds = 60 };
  authenticated_user = record {
    scope = text "authenticated_user";
    limit = 120;
    window_seconds = 60;
  };
}

-- What Redis returns to a client; `failed` stands for an exception of the client.
pub data RedisValue : Type 0 where
  integer : ℤ → RedisValue
  bulk : Text → RedisValue
  missing : RedisValue

pub data Reply : Type 0 where
  failed : Reply
  single : RedisValue → Reply
  several : List RedisValue → Reply

-- The commands that the script uses, over states of a server, and the evaluation of a script, which
-- may fail before or after it.
pub record RedisServer (S : Type 0) : Type 0 where
  pub incr : Text → S → ℤ × S
  pub expire : Text → ℕ → S → S
  pub ttl : Text → S → ℤ × S
  pub evaluate : (S → Reply × S) → S → Reply × S

-- `math.floor(now / window)`, `math.ceil(end - now)`, the digits of an integer, and the hexadecimal
-- HMAC of two texts, `none` where a text cannot be encoded.
pub record Arithmetic : Type 0 where
  pub floor_quotient : Float → ℕ → ℕ
  pub ceil_difference : ℕ → Float → ℤ
  pub digits : ℕ → Text
  pub digest : Text → Text → Option Text

abbrev pub is_one : ℤ → Bool
is_one (pos n) = n == 1
is_one (negsuc _) = false

-- `current > limit`
abbrev pub is_above : ℤ → ℕ → Bool
is_above (pos n) limit = ltb limit n
is_above (negsuc _) limit = false

-- `max(1, z)`
abbrev pub at_least_one : ℤ → ℕ
at_least_one (pos n) = if ltb n 1 then 1 else n
at_least_one (negsuc _) = 1

-- `_parse_rate_limit_result`, `none` where it raises.
abbrev pub parse_rate_limit_result : Reply → Option (ℤ × ℤ)
parse_rate_limit_result (several (integer count ∷ integer left ∷ [])) = some (count, left)
parse_rate_limit_result _ = none

-- A `RedisFixedWindowRateLimiter`.
pub record Limiter : Type 0 where
  pub hash_key : Text
  pub namespace : Text

-- The constructor.
unfoldable pub make_limiter : Text → Text → Result Limiter
make_limiter hash_key namespace = do
  raise_if (is_empty hash_key) value_error
  raise_if (is_empty namespace) value_error
  ok (record { hash_key = hash_key; namespace = namespace })

abbrev pub bucket_key : Arithmetic → Limiter → RateLimitRule → ℕ → Text → Text
bucket_key ar limiter rule bucket digest =
    limiter.namespace
    ++ text ":v1:"
    ++ rule.scope
    ++ text ":"
    ++ ar.digits bucket
    ++ text ":"
    ++ digest

abbrev pub encoded : Option Text → Result Text
encoded none = err value_error
encoded (some digest) = ok digest

module _ {S : Type 0} (server : RedisServer S) (ar : Arithmetic) (limiter : Limiter) where
  -- `_FIXED_WINDOW_SCRIPT`
  unfoldable pub fixed_window_script : Text → ℕ → S → Reply × S
  fixed_window_script key expires_in s =
      let (current, s1) = server.incr key s in
      let s2 = if is_one current then server.expire key expires_in s1 else s1 in
      let (left, s3) = server.ttl key s2 in (several (integer current ∷ integer left ∷ []), s3)

  -- The answer of the script, or a bypass where there is none.
  abbrev pub verdict : RateLimitRule → Option (ℤ × ℤ) → Result (Unit {0})
  verdict rule none = ok tt
  verdict rule (some (count, left)) =
      raise_if (is_above count rule.limit) (rate_limit_exceeded (at_least_one left))

  abbrev pub expires_in : RateLimitRule → Float → ℕ
  expires_in rule now =
      let bucket = ar.floor_quotient now rule.window_seconds in
      at_least_one (ar.ceil_difference ((bucket + 1) * rule.window_seconds) now)

  -- The call of the script for a digest.
  abbrev pub enforce_digest : RateLimitRule → Float → Result Text → S → Result (Unit {0}) × S
  enforce_digest rule now (err e) s = (err e, s)
  enforce_digest rule now (ok digest) s =
      let key = bucket_key ar limiter rule (ar.floor_quotient now rule.window_seconds) digest in
      let (reply, s') = server.evaluate (fixed_window_script key (expires_in rule now)) s in
      (verdict rule (parse_rate_limit_result reply), s')

  -- `enforce`, at the time of the call.
  unfoldable pub enforce : RateLimitRule → Text → Float → S → Result (Unit {0}) × S
  unfolding fixed_window_script
  enforce rule identifier now s =
      enforce_digest rule now (encoded (ar.digest limiter.hash_key identifier)) s

-- `client_ip_identifier`: the host of the connection, the header, and `ip_address(…).compressed`,
-- `none` where it raises.
abbrev pub first_part : Text → Text
first_part [] = []
first_part (c ∷ s) = if c == 44 then [] else c ∷ first_part s

abbrev pub candidate_host : Bool → Text → Option Text → Text
candidate_host false direct_host header = direct_host
candidate_host true direct_host none = direct_host
candidate_host true direct_host (some header) =
    if is_empty header then direct_host else strip (first_part header)

abbrev pub compressed_or : Option Text → Text → Text
compressed_or none other = other
compressed_or (some address) other = address

unfoldable pub client_ip_identifier : (Text → Option Text) → Option Text → Option Text → Bool → Text
client_ip_identifier compressed client header trust_proxy_headers =
    let direct_host = compressed_or client (text "unknown") in
    let candidate = candidate_host trust_proxy_headers direct_host header in
    compressed_or (compressed candidate) (compressed_or (compressed direct_host) (text "unknown"))
