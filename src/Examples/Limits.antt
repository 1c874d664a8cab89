-- ===== src/Examples/Limits.antt =====
-- A Redis that counts and forgets nothing, and the theorems on the limiter at it.
use portfolio_analytics_api.Common.Int.{pos}
use portfolio_analytics_api.RateLimit.Counting.{
  enforce-IsCounted, after, enforce_request, enforce-IsVerdict, hits, Request, IsVerdict, IsCounted,
  IsCounting,
}
use portfolio_analytics_api.Common.Text.{text_eq→eq, text_eq, text, Text}
use portfolio_analytics_api.Common.{
  sym, ap, if◌then◌else◌, ◌+◌, Bool-cases, ℕ, List, inr, inl, ◌∷◌, [], some, refl,
}
use portfolio_analytics_api.RateLimit.{
  enforce, bucket_key, Arithmetic, RedisServer, RateLimitRule, Limiter,
}

abbrev pub used : Text → List (Text × ℕ) → ℕ
used key [] = 0
used key ((k, n) ∷ s) = if text_eq key k then n else used key s

abbrev pub counters : RedisServer (List (Text × ℕ))
counters = record {
  incr = λ key s. (pos (used key s + 1), (key, used key s + 1) ∷ s);
  expire = λ key seconds s. s;
  ttl = λ key s. (pos 60, s);
  evaluate = λ script s. script s;
}

pub counters-IsCounting : IsCounting counters used
counters-IsCounting = record {
  incr_answer = λ key s. refl;
  incr_count = λ key other s. elim (Bool-cases (text_eq other key)) [
    | inl same ↦ rw same (ap (λ k. used k s + 1) (sym (text_eq→eq other key same)))
    | inr different ↦ rw different refl
  ];
  expire_count = λ key other seconds s h. refl;
  ttl_count = λ key other s. refl;
  evaluated = λ script s. refl;
}

-- Windows of one bucket, and digests that show the identifier.
abbrev pub one_window : Arithmetic
one_window = record {
  floor_quotient = λ now window. 0;
  ceil_difference = λ end now. pos 60;
  digits = λ n. n ∷ [];
  digest = λ key identifier. some identifier;
}

abbrev pub limiter : Limiter
limiter = record { hash_key = text "secret"; namespace = text "rate-limit" }

abbrev twice_a_minute : RateLimitRule
twice_a_minute = record { scope = text "login_email"; limit = 2; window_seconds = 60 }

abbrev login_of : Text → Request
login_of email = record { rule = twice_a_minute; identifier = email; now = 0 }

abbrev logins : List Request
logins = login_of (text "a") ∷ login_of (text "b") ∷ login_of (text "a") ∷ []

abbrev key_a : Text
key_a = bucket_key one_window limiter twice_a_minute 0 (text "a")

enforce-IsCounted_example :
    IsCounted 2
      (used key_a [] + hits counters one_window limiter key_a logins)
      (enforce_request counters one_window limiter
        (login_of (text "a"))
        (after counters one_window limiter logins [])).0
enforce-IsCounted_example =
    enforce-IsCounted counters one_window limiter used counters-IsCounting logins
      (login_of (text "a")) key_a [] refl

enforce-IsVerdict_example :
    IsVerdict
      (some (text "a"))
      (enforce counters one_window limiter twice_a_minute (text "a") 0 []).0
enforce-IsVerdict_example =
    enforce-IsVerdict counters one_window limiter twice_a_minute (text "a") 0 []
