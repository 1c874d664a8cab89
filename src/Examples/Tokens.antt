-- ===== src/Examples/Tokens.antt =====
-- Tokens that write their claims out, and the theorem on their lifetime.
use portfolio_analytics_api.Examples.Formats.{only_date}
use portfolio_analytics_api.Tokens.Lifetime.{verify-issue, IsJwt}
use portfolio_analytics_api.Common.Text.{text, Text}
use portfolio_analytics_api.Common.{
  ◌≤◌, ◌⊎◌, if◌then◌else◌, ◌+◌, ltb, Option, ap, ◌<◌, ◌≡◌, ℕ, arith, ◌∷◌, [], some, none, false,
  true, refl,
}
use Prim.Native.Nat.{zero, suc}
use portfolio_analytics_api.Errors.{invalid_access_token, ok, err}
use portfolio_analytics_api.Tokens.{
  issue, verify, expires_in_seconds, TokenOptions, UuidText, Claims, Jwt,
}

abbrev spelled : Text → Text → Text
spelled [] k = 0 ∷ k
spelled (c ∷ s) k = suc c ∷ spelled s k

abbrev first_text : Text → Text
first_text [] = []
first_text (zero ∷ k) = []
first_text (suc c ∷ k) = c ∷ first_text k

abbrev rest_text : Text → Text
rest_text [] = []
rest_text (zero ∷ k) = k
rest_text (suc c ∷ k) = rest_text k

first_text-spelled : (s k : Text) → first_text (spelled s k) ≡ s
first_text-spelled [] k = refl
first_text-spelled (c ∷ s) k = ap (λ t. c ∷ t) (first_text-spelled s k)

rest_text-spelled : (s k : Text) → rest_text (spelled s k) ≡ k
rest_text-spelled [] k = refl
rest_text-spelled (c ∷ s) k = rest_text-spelled s k

abbrev read_claims : Text → Option Claims
read_claims (iat ∷ exp ∷ k) = some (record {
  sub = first_text k;
  iat = iat;
  exp = exp;
  iss = first_text (rest_text k);
  aud = first_text (rest_text (rest_text k));
  token_type = first_text (rest_text (rest_text (rest_text k)));
})
read_claims _ = none

abbrev written_claims : Claims → Text
written_claims c =
    c.iat ∷ c.exp ∷ spelled c.sub (spelled c.iss (spelled c.aud (spelled c.token_type [])))

abbrev unless_expired : ℕ → Option Claims → Option Claims
unless_expired now none = none
unless_expired now (some c) = if ltb now c.exp then some c else none

abbrev plain_jwt : Jwt
plain_jwt = record {
  encode = λ c key. written_claims c;
  decode = λ token key audience issuer now. unless_expired now (read_claims token);
}

read_claims-written : (c : Claims) → read_claims (written_claims c) ≡ some c
read_claims-written c =
    rw
      (
        first_text-spelled c.sub,
        rest_text-spelled c.sub,
        first_text-spelled c.iss,
        rest_text-spelled c.iss,
        first_text-spelled c.aud,
        rest_text-spelled c.aud,
        first_text-spelled c.token_type,
      )
      refl

plain_jwt-IsJwt : IsJwt plain_jwt
plain_jwt-IsJwt = record {
  decode_valid = λ c key now h less.
      let early : ltb now c.exp ≡ true = ground arith in rw (read_claims-written c, early) refl;
  decode_expired = λ c key audience issuer now more.
      let late : ltb now c.exp ≡ false = ground arith in rw (read_claims-written c, late) refl;
}

abbrev plain_ids : UuidText
plain_ids = record { id_text = λ id. id ∷ []; id_from_text = only_date }

abbrev token_options : TokenOptions
token_options = record { secret_key = text "0123456789abcdef0123456789abcdef"; expire_minutes = 15 }

verify-issue_example :
    ((1200 < 1000 + expires_in_seconds token_options)
      × (verify plain_jwt plain_ids token_options
            (issue plain_jwt plain_ids token_options 5 1000)
            1200
          ≡ ok 5))
    ⊎ ((1000 + expires_in_seconds token_options ≤ 1200)
        × (verify plain_jwt plain_ids token_options
              (issue plain_jwt plain_ids token_options 5 1000)
              1200
            ≡ err invalid_access_token))
verify-issue_example =
    verify-issue plain_jwt plain_jwt-IsJwt plain_ids (λ id. refl) token_options 5 1000 1200
      (ground arith)
