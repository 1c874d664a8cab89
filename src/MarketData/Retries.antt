-- ===== src/MarketData/Retries.antt =====
-- `RetryingMarketDataProvider._attempt` of infrastructure/market_data/resilience.py. What the
-- provider answers to each call is an argument, numbered from 1; the time limit around the loop is
-- left out.
use portfolio_analytics_api.Domain.Models.{Float}
use portfolio_analytics_api.Domain.Floats.{Floats}
use portfolio_analytics_api.Services.Analytics.{MarketDataResult}
use portfolio_analytics_api.Common.{
  ==→eq, Bool-cases, sym, ap, refl, ◌<◌, ◌⊎◌, ◌-◌, length, ◌==◌, ◌^◌, ◌+◌, ◌≤◌, ◌≡◌, List, Bool, ℕ,
  arith, inr, inl, ◌∷◌, [], false, true,
}
use mathlib.Core.Path.{subst}
use Prim.Native.Nat.{zero, suc}
use portfolio_analytics_api.Errors.{
  market_data_timeout, market_data_unavailable, Result-cases, market_data_rate_limit,
  assertion_error, Error, Result, ok, err,
}

-- The subclasses of `MarketDataRetryableError`.
abbrev pub retryable : Error → Bool
retryable market_data_rate_limit = true
retryable market_data_unavailable = true
retryable market_data_timeout = true
retryable _ = false

-- What the loop returns or raises, and the delays that it slept.
abbrev pub Attempted : Type 0
Attempted = Result MarketDataResult × List Float

le_cases : (m n : ℕ) → m ≤ n → (m ≡ n) ⊎ (m + 1 ≤ n)
le_cases m n h = elim (Bool-cases (m == n)) [
  | inl e ↦ inl (==→eq m n e)
  | inr e ↦ inr (ground arith)
]

module _ (max_attempts : ℕ) (delay : ℕ → Float) (call : ℕ → Result MarketDataResult) where
  -- The loop from an attempt on; `left` is the number of attempts in the rest of the range.
  unfoldable pub attempt_from : ℕ → ℕ → Attempted
  attempt_from zero attempt = (err assertion_error, [])
  attempt_from (suc left) attempt = elim (call attempt) [
    | ok result ↦ (ok result, [])
    | err e ↦ elim (retryable e) [
      | false ↦ (err e, [])
      | true ↦ elim (attempt == max_attempts) [
        | true ↦ (err e, [])
        | false ↦
            let (result, delays) = attempt_from left (attempt + 1) in
            (result, delay attempt ∷ delays)
      ]
    ]
  ]

  -- The answer of a call that asks for another one.
  abbrev pub IsRetried : ℕ → Type 0
  IsRetried k = (e : Error) × (call k ≡ err e) × (retryable e ≡ true)

  -- The delays of the calls from an attempt on, for a number of calls.
  abbrev pub delays_of : ℕ → ℕ → List Float
  delays_of zero attempt = []
  delays_of (suc calls) attempt = delay attempt ∷ delays_of calls (attempt + 1)

  -- The call whose answer the loop hands on, and the calls before it.
  pub record IsAnswered (attempt : ℕ) (a : Attempted) : Type 0 where
    pub answered : ℕ
    pub not_before : attempt ≤ answered
    pub in_range : answered ≤ max_attempts
    pub answer : a.0 ≡ call answered
    pub earlier : (k : ℕ) → attempt ≤ k → k < answered → IsRetried k
    pub slept : length a.1 + attempt ≡ answered
    pub delays : a.1 ≡ delays_of (length a.1) attempt
    pub settled : (answered ≡ max_attempts) ⊎ ¬ (IsRetried answered)

  -- The loop ends at an attempt without a delay.
  IsAnswered-now :
      (attempt : ℕ) (r : Result MarketDataResult)
      → call attempt ≡ r
      → attempt ≤ max_attempts
      → (attempt ≡ max_attempts) ⊎ ¬ (IsRetried attempt)
      → IsAnswered attempt (r, [])
  IsAnswered-now attempt r e h settled = record {
    answered = attempt;
    not_before = ground arith;
    in_range = h;
    answer = sym e;
    earlier = λ k low high. absurd (omega arith);
    slept = ground arith;
    delays = refl;
    settled = settled;
  }

  -- One more call, which failed with a retryable error, before those of the rest of the loop.
  IsAnswered-later :
      (attempt : ℕ) (a : Attempted)
      → IsRetried attempt
      → IsAnswered (attempt + 1) a
      → IsAnswered attempt (a.0, delay attempt ∷ a.1)
  IsAnswered-later attempt a again rest = record {
    answered = rest.answered;
    not_before = ground (arith, rest.not_before);
    in_range = rest.in_range;
    answer = rest.answer;
    earlier = λ k low high. elim (le_cases attempt k low) [
      | inl same ↦ subst IsRetried same again
      | inr above ↦ rest.earlier k above high
    ];
    slept = ground (arith, rest.slept);
    delays = ap (◌∷◌ (delay attempt)) rest.delays;
    settled = rest.settled;
  }

  attempt_from-IsAnswered :
      (left attempt : ℕ)
      → left + attempt ≡ suc max_attempts
      → 1 ≤ left
      → IsAnswered attempt (attempt_from left attempt)
  unfolding attempt_from
  attempt_from-IsAnswered zero attempt h k = ground arith
  attempt_from-IsAnswered (suc left) attempt h k = elim (Result-cases (call attempt)) [
    | inl (r, e) ↦
        rw (attempt_from, e)
          (IsAnswered-now attempt (ok r) e (omega arith) (inr (λ (x, raised, again). absurd (cc))))
    | inr (x, e) ↦ elim (Bool-cases (retryable x)) [
      | inr final ↦
          rw (attempt_from, e, final)
            (IsAnswered-now attempt (err x) e (omega arith)
              (inr (λ (y, raised, again). absurd (cc))))
      | inl again ↦ elim (Bool-cases (attempt == max_attempts)) [
        | inl ended ↦
            rw (attempt_from, e, again, ended)
              (IsAnswered-now attempt (err x) e (omega arith)
                (inl (==→eq attempt max_attempts ended)))
        | inr more ↦
            let rest = attempt_from-IsAnswered left (attempt + 1) (omega arith) (ground arith) in
            rw (attempt_from, e, again, more) (IsAnswered-later attempt _ (x, e, again) rest)
      ]
    ]
  ]

-- `delay = self._initial_backoff_seconds * (2 ** (attempt - 1))`
abbrev pub backoff : Floats → Float → ℕ → Float
backoff fl initial attempt = fl.float_mul initial (fl.of_nat (2 ^ (attempt - 1)))

unfoldable pub attempt_calls : Floats → ℕ → Float → (ℕ → Result MarketDataResult) → Attempted
unfolding attempt_from
attempt_calls fl max_attempts initial call =
    attempt_from max_attempts (backoff fl initial) call max_attempts 1

-- With at least one attempt, the loop returns or raises what one of the calls 1 to `max_attempts`
-- answered. Every call before that one failed with a retryable error, and the loop slept after
-- each of them, in their order, `initial * 2 ** (n - 1)` after call n and nothing else. It stopped
-- there because that call was the last one allowed or did not fail with a retryable error.
pub attempt_calls-IsAnswered :
    (fl : Floats) (max_attempts : ℕ) (initial : Float) (call : ℕ → Result MarketDataResult)
    → 1 ≤ max_attempts
    → IsAnswered max_attempts
        (λ n. fl.float_mul initial (fl.of_nat (2 ^ (n - 1))))
        call
        1
        (attempt_calls fl max_attempts initial call)
unfolding attempt_calls
attempt_calls-IsAnswered fl max_attempts initial call h =
    attempt_from-IsAnswered max_attempts (backoff fl initial) call max_attempts 1 (omega arith) h
