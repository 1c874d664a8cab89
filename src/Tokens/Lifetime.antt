-- ===== src/Tokens/Lifetime.antt =====
-- How long an access token is accepted.
use portfolio_analytics_api.Domain.Models.{Uuid}
use portfolio_analytics_api.Common.Text.{text, Text}
use portfolio_analytics_api.Common.{
  ltb, Bool-cases, ◌*◌, ◌⊎◌, ◌+◌, ◌≡◌, ◌<◌, ◌≤◌, ℕ, arith, inr, inl, some, none, refl,
}
use portfolio_analytics_api.Errors.{invalid_access_token, ok, err}
use portfolio_analytics_api.Tokens.{
  jwt_audience, jwt_issuer, expires_in_seconds, TokenOptions, UuidText, issue, verify, Claims, Jwt,
}

-- What PyJWT promises of its own tokens: between `iat` and `exp` they are read with the key, the
-- audience and the issuer that they were made with, and from `exp` on they are refused.
pub record IsJwt (jwt : Jwt) : Type 0 where
  pub decode_valid :
      (claims : Claims) (key : Text) (now : ℕ)
      → claims.iat ≤ now
      → now < claims.exp
      → jwt.decode (jwt.encode claims key) key claims.aud claims.iss now ≡ some claims
  pub decode_expired :
      (claims : Claims) (key audience issuer : Text) (now : ℕ)
      → claims.exp ≤ now
      → jwt.decode (jwt.encode claims key) key audience issuer now ≡ none

-- A token that was issued names its user from then on for the minutes of its lifetime, and is refused
-- as an invalid access token after them.
pub verify-issue :
    (jwt : Jwt) (laws : IsJwt jwt) (ids : UuidText)
    → ((id : Uuid) → ids.id_from_text (ids.id_text id) ≡ some id)
    → (o : TokenOptions) (user_id : Uuid) (issued_at now : ℕ) → issued_at ≤ now
    → ((now < issued_at + expires_in_seconds o)
        × (verify jwt ids o (issue jwt ids o user_id issued_at) now ≡ ok user_id))
      ⊎ ((issued_at + expires_in_seconds o ≤ now)
          × (verify jwt ids o (issue jwt ids o user_id issued_at) now ≡ err invalid_access_token))
unfolding verify issue
verify-issue jwt laws ids read o user_id issued_at now h =
    let claims : Claims = record {
      sub = ids.id_text user_id;
      iat = issued_at;
      exp = issued_at + o.expire_minutes * 60;
      iss = jwt_issuer;
      aud = jwt_audience;
      token_type = text "access";
    } in
    elim (Bool-cases (ltb now (issued_at + expires_in_seconds o))) [
      | inl early ↦
          let less : now < issued_at + expires_in_seconds o = ground arith in
          inl (
            less,
            rw (verify, issue, laws.decode_valid claims o.secret_key now h less, read user_id) refl,
          )
      | inr late ↦
          let more : issued_at + expires_in_seconds o ≤ now = ground arith in
          inr (
            more,
            rw
                (
                  verify,
                  issue,
                  laws.decode_expired claims o.secret_key jwt_audience jwt_issuer now more,
                )
                refl,
          )
    ]
