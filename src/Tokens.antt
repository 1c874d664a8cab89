-- ===== src/Tokens.antt =====
-- infrastructure/auth.py: access tokens. PyJWT and the text of a UUID are arguments; times are whole
-- seconds, as the claims hold them. The password hasher only calls pwdlib.
use portfolio_analytics_api.Domain.Models.{Uuid}
use portfolio_analytics_api.Common.Text.{text_eq, text, Text}
use portfolio_analytics_api.Common.{
  ◌==◌, Bool-cases, ◌⊎◌, not, length, ◌<◌, if◌then◌else◌, ltb, ◌≡◌, ◌≤◌, ◌+◌, ◌*◌, Option, ℕ, arith,
  inr, inl, some, none, refl,
}
use portfolio_analytics_api.Errors.{
  value_error, invalid_access_token, raise_if, Result, ok, err, ◌>>◌,
}
pub mod Lifetime

pub record Claims : Type 0 where
  pub sub : Text
  pub iat : ℕ
  pub exp : ℕ
  pub iss : Text
  pub aud : Text
  pub token_type : Text

-- `jwt.encode` with a key, and `jwt.decode` at a time with a key, an audience and an issuer: `none`
-- where it raises, also where one of the required claims is missing.
pub record Jwt : Type 0 where
  pub encode : Claims → Text → Text
  pub decode : Text → Text → Text → Text → ℕ → Option Claims

-- `str(user_id)` and `UUID(text)`
pub record UuidText : Type 0 where
  pub id_text : Uuid → Text
  pub id_from_text : Text → Option Uuid

abbrev pub jwt_issuer : Text
jwt_issuer = text "portfolio-analytics-api"

abbrev pub jwt_audience : Text
jwt_audience = text "portfolio-analytics-api"

-- A `JwtAccessTokenService`.
pub record TokenOptions : Type 0 where
  pub secret_key : Text
  pub expire_minutes : ℕ

-- The constructor.
unfoldable pub make_token_options : Text → ℕ → Result TokenOptions
make_token_options secret_key expire_minutes = do
  raise_if (ltb (length secret_key) 32) value_error
  raise_if (expire_minutes == 0) value_error
  ok (record { secret_key = secret_key; expire_minutes = expire_minutes })

abbrev pub expires_in_seconds : TokenOptions → ℕ
expires_in_seconds o = o.expire_minutes * 60

module _ (jwt : Jwt) (ids : UuidText) (o : TokenOptions) where
  -- `issue`, at a time.
  unfoldable pub issue : Uuid → ℕ → Text
  issue user_id issued_at =
      jwt.encode
        (record {
          sub = ids.id_text user_id;
          iat = issued_at;
          exp = issued_at + o.expire_minutes * 60;
          iss = jwt_issuer;
          aud = jwt_audience;
          token_type = text "access";
        })
        o.secret_key

  abbrev pub user_of : Option Uuid → Result Uuid
  user_of none = err invalid_access_token
  user_of (some id) = ok id

  abbrev pub accepted_claims : Option Claims → Result Uuid
  accepted_claims none = err invalid_access_token
  accepted_claims (some claims) =
      if not (text_eq claims.token_type (text "access"))
      then err invalid_access_token
      else user_of (ids.id_from_text claims.sub)

  -- `verify`, at a time.
  unfoldable pub verify : Text → ℕ → Result Uuid
  verify token now = accepted_claims (jwt.decode token o.secret_key jwt_audience jwt_issuer now)
