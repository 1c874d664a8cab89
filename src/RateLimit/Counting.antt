-- ===== src/RateLimit/Counting.antt =====
-- What the limiter admits: the counters of a Redis that works, and any other Redis.
use portfolio_analytics_api.Domain.Models.{Float}
use portfolio_analytics_api.Common.Text.{text_eq, Text}
use portfolio_analytics_api.RateLimit.{
  integer, several, expires_in, is_one, is_above, Reply, encoded, fixed_window_script, bucket_key,
  enforce, enforce_digest, verdict, Limiter, at_least_one, Arithmetic, RateLimitRule, RedisServer,
}
use portfolio_analytics_api.Common.Int.{negsuc, pos, ℤ}
use portfolio_analytics_api.Common.{
  ap, ltb, ◌⊎◌, ◌<◌, ◌∙◌, if◌then◌else◌, Bool-cases, ◌+◌, List, Bool, ◌≡◌, ℕ, ◌≤◌, Option, arith,
  inr, inl, ◌∷◌, [], some, none, false, refl,
}
use portfolio_analytics_api.Errors.{value_error, rate_limit_exceeded, Result, ok, err}

-- What `enforce` may raise with any Redis.
abbrev pub IsVerdict : Option Text → Result (Unit {0}) → Type 0
IsVerdict digest (ok _) = Unit
IsVerdict digest (err (rate_limit_exceeded retry_after)) = 1 ≤ retry_after
IsVerdict digest (err value_error) = digest ≡ none
IsVerdict digest (err _) = ⊥

at_least_one-above : (z : ℤ) → 1 ≤ at_least_one z
at_least_one-above (pos n) = ground arith
at_least_one-above (negsuc n) = ground arith

-- The documented effect of the commands on the counters, for expiry times of at least a second, and
-- scripts that run to their end.
pub record IsCounting {S : Type 0} (server : RedisServer S) (count : Text → S → ℕ) : Type 0 where
  pub incr_answer : (key : Text) (s : S) → (server.incr key s).0 ≡ pos (count key s + 1)
  pub incr_count :
      (key other : Text) (s : S)
      → count other (server.incr key s).1
        ≡ (if text_eq other key then count other s + 1 else count other s)
  pub expire_count :
      (key other : Text) (seconds : ℕ) (s : S)
      → 1 ≤ seconds
      → count other (server.expire key seconds s) ≡ count other s
  pub ttl_count : (key other : Text) (s : S) → count other (server.ttl key s).1 ≡ count other s
  pub evaluated : (script : S → Reply × S) (s : S) → server.evaluate script s ≡ script s

-- The answer to a request after `used` others for its key.
abbrev pub IsCounted : ℕ → ℕ → Result (Unit {0}) → Type 0
IsCounted limit used answer =
    ((used < limit) × (answer ≡ ok tt))
    ⊎ ((limit ≤ used)
        × ((retry_after : ℕ) × (1 ≤ retry_after)
            × (answer ≡ err (rate_limit_exceeded retry_after))))

-- The arguments of a call of `enforce`.
pub record Request : Type 0 where
  pub rule : RateLimitRule
  pub identifier : Text
  pub now : Float

module _ {S : Type 0} (server : RedisServer S) (ar : Arithmetic) (limiter : Limiter) where
  verdict-IsVerdict :
      (digest : Option Text) (rule : RateLimitRule) (answer : Option (ℤ × ℤ))
      → IsVerdict digest (verdict server ar limiter rule answer)
  verdict-IsVerdict digest rule none = tt
  verdict-IsVerdict digest rule (some (count, left)) =
      elim (Bool-cases (is_above count rule.limit)) [
        | inl above ↦ rw above (at_least_one-above left)
        | inr below ↦ rw below tt
      ]

  enforce_digest-IsVerdict :
      (rule : RateLimitRule) (now : Float) (digest : Option Text) (s : S)
      → IsVerdict digest (enforce_digest server ar limiter rule now (encoded digest) s).0
  enforce_digest-IsVerdict rule now none s = refl
  enforce_digest-IsVerdict rule now (some digest) s = verdict-IsVerdict (some digest) rule _

  -- Whatever Redis answers, also where it fails or returns something else than two integers,
  -- `enforce` passes or raises `RateLimitExceededError` with a delay of at least one second, unless
  -- the identifier cannot be encoded.
  pub enforce-IsVerdict :
      (rule : RateLimitRule) (identifier : Text) (now : Float) (s : S)
      → IsVerdict
          (ar.digest limiter.hash_key identifier)
          (enforce server ar limiter rule identifier now s).0
  unfolding enforce
  enforce-IsVerdict rule identifier now s =
      enforce_digest-IsVerdict rule now (ar.digest limiter.hash_key identifier) s

  verdict-cases :
      (rule : RateLimitRule) (answer : Option (ℤ × ℤ))
      → (verdict server ar limiter rule answer ≡ ok tt)
        ⊎ ((verdict server ar limiter rule answer ≡ err value_error)
            ⊎ ((n : ℕ) × (verdict server ar limiter rule answer ≡ err (rate_limit_exceeded n))))
  verdict-cases rule none = inl refl
  verdict-cases rule (some (count, left)) = elim (Bool-cases (is_above count rule.limit)) [
    | inl above ↦ rw above (inr (inr (at_least_one left, refl)))
    | inr below ↦ rw below (inl refl)
  ]

  enforce_digest-cases :
      (rule : RateLimitRule) (now : Float) (digest : Option Text) (s : S)
      → let answer = (enforce_digest server ar limiter rule now (encoded digest) s).0 in
        (answer ≡ ok tt)
        ⊎ ((answer ≡ err value_error) ⊎ ((n : ℕ) × (answer ≡ err (rate_limit_exceeded n))))
  enforce_digest-cases rule now none s = inr (inl refl)
  enforce_digest-cases rule now (some digest) s = verdict-cases rule _

  -- The counter of a request, where its identifier can be encoded.
  abbrev pub key_for : Request → Option Text → Option Text
  key_for r none = none
  key_for r (some digest) =
      some (bucket_key ar limiter r.rule (ar.floor_quotient r.now r.rule.window_seconds) digest)

  abbrev pub key_of : Request → Option Text
  key_of r = key_for r (ar.digest limiter.hash_key r.identifier)

  abbrev pub is_hit : Text → Option Text → Bool
  is_hit key none = false
  is_hit key (some other) = text_eq key other

  -- How many of the requests count for a key.
  abbrev pub hits : Text → List Request → ℕ
  hits key [] = 0
  hits key (r ∷ requests) =
      if is_hit key (key_of r) then 1 + hits key requests else hits key requests

  abbrev pub enforce_request : Request → S → Result (Unit {0}) × S
  enforce_request r s = enforce server ar limiter r.rule r.identifier r.now s

  -- The state after some requests, admitted or refused.
  abbrev pub after : List Request → S → S
  after [] s = s
  after (r ∷ requests) s = after requests (enforce_request r s).1

  pub enforce-cases :
      (r : Request) (s : S)
      → ((enforce_request r s).0 ≡ ok tt)
        ⊎ (((enforce_request r s).0 ≡ err value_error)
            ⊎ ((n : ℕ) × ((enforce_request r s).0 ≡ err (rate_limit_exceeded n))))
  unfolding enforce
  enforce-cases r s = enforce_digest-cases r.rule r.now (ar.digest limiter.hash_key r.identifier) s

  module _ (count : Text → S → ℕ) (laws : IsCounting server count) where
    fixed_window_script-count :
        (key other : Text) (seconds : ℕ) (s : S)
        → 1 ≤ seconds
        → count other (fixed_window_script server ar limiter key seconds s).1
          ≡ (if text_eq other key then count other s + 1 else count other s)
    unfolding fixed_window_script
    fixed_window_script-count key other seconds s h =
        let s1 = (server.incr key s).1 in
        let counted = laws.incr_count key other s in
        elim (Bool-cases (is_one (server.incr key s).0)) [
          | inl first ↦
              rw (fixed_window_script, first)
                (laws.ttl_count key other (server.expire key seconds s1)
                  ∙ laws.expire_count key other seconds s1 h
                  ∙ counted)
          | inr later ↦ rw (fixed_window_script, later) (laws.ttl_count key other s1 ∙ counted)
        ]

    enforce_digest-count :
        (r : Request) (digest : Option Text) (other : Text) (s : S)
        → count other (enforce_digest server ar limiter r.rule r.now (encoded digest) s).1
          ≡ (if is_hit other (key_for r digest) then count other s + 1 else count other s)
    enforce_digest-count r none other s = refl
    enforce_digest-count r (some digest) other s = rw (laws.evaluated) (
        fixed_window_script-count _ other (expires_in server ar limiter r.rule r.now) s
          (at_least_one-above (ar.ceil_difference _ r.now)))

    pub enforce-count :
        (r : Request) (other : Text) (s : S)
        → count other (enforce_request r s).1
          ≡ (if is_hit other (key_of r) then count other s + 1 else count other s)
    unfolding enforce
    enforce-count r other s =
        enforce_digest-count r (ar.digest limiter.hash_key r.identifier) other s

    after-count :
        (requests : List Request) (other : Text) (s : S)
        → count other (after requests s) ≡ count other s + hits other requests
    after-count [] other s = ground arith
    after-count (r ∷ requests) other s =
        let rest = after-count requests other (enforce_request r s).1 in
        let one = enforce-count r other s in
        elim (Bool-cases (is_hit other (key_of r))) [
          | inl hit ↦ (let one' = rw hit at one in rw hit (ground arith))
          | inr miss ↦ (let one' = rw miss at one in rw miss (ground arith))
        ]

    verdict-IsCounted :
        (rule : RateLimitRule) (used : ℕ) (left : ℤ)
        → IsCounted rule.limit used (verdict server ar limiter rule (some (pos (used + 1), left)))
    verdict-IsCounted rule used left = elim (Bool-cases (ltb rule.limit (used + 1))) [
      | inl above ↦
          rw above (inr (ground arith, (at_least_one left, at_least_one-above left, refl)))
      | inr below ↦ rw below (inl (ground arith, refl))
    ]

    fixed_window_script-reply :
        (key : Text) (seconds : ℕ) (s : S)
        → (left : ℤ) × ((fixed_window_script server ar limiter key seconds s).0
            ≡ several (integer (pos (count key s + 1)) ∷ integer left ∷ []))
    unfolding fixed_window_script
    fixed_window_script-reply key seconds s =
        let (current, s1) = server.incr key s in
        let left =
          (server.ttl key (if is_one current then server.expire key seconds s1 else s1)).0 in
        (left, ap (λ c. several (integer c ∷ integer left ∷ [])) (laws.incr_answer key s))

    enforce_digest-IsCounted :
        (r : Request) (digest : Option Text) (key : Text) (s : S)
        → key_for r digest ≡ some key
        → IsCounted r.rule.limit
            (count key s)
            (enforce_digest server ar limiter r.rule r.now (encoded digest) s).0
    enforce_digest-IsCounted r none key s e = absurd (cc)
    enforce_digest-IsCounted r (some digest) key s e =
        let own =
          bucket_key ar limiter r.rule (ar.floor_quotient r.now r.rule.window_seconds) digest in
        let same : own ≡ key = ground arith in
        let (left, answer) =
          fixed_window_script-reply own (expires_in server ar limiter r.rule r.now) s in
        rw (← same, laws.evaluated, answer) (verdict-IsCounted r.rule (count own s) left)

    -- With a Redis whose commands count, a request is admitted exactly while fewer requests than
    -- its rule's limit have used its key, that is the rule's scope, the window and the digest: those
    -- counted in the first state and those among the requests made since, whatever other keys these
    -- have used. A refusal asks for a delay of at least one second.
    pub enforce-IsCounted :
        (requests : List Request) (r : Request) (key : Text) (s : S)
        → key_of r ≡ some key
        → IsCounted r.rule.limit
            (count key s + hits key requests)
            (enforce_request r (after requests s)).0
    unfolding enforce
    enforce-IsCounted requests r key s e = rw (← after-count requests key s) (
        enforce_digest-IsCounted r (ar.digest limiter.hash_key r.identifier) key (after requests s)
          e)
