-- ===== src/InsightAdapters/Cached.antt =====
-- What the cached insight generator returns, and what it keeps.
use mathlib.Core.List.{append_assoc}
use portfolio_analytics_api.Common.Int.{eq_ℤ, negsuc, pos, ℤ}
use portfolio_analytics_api.MarketData.Cache.Hits.{IsUp}
use portfolio_analytics_api.Services.Insights.{InsightGenerator}
use portfolio_analytics_api.MarketData.Json.{Json}
use portfolio_analytics_api.Common.Text.{text, Text}
use portfolio_analytics_api.InsightAdapters.{
  serialize_insight_input, usable_insight, insight_key, after_lookup, after_parse, after_run,
  keep_insight, cached_generate, is_cacheable, InsightFormat,
}
use portfolio_analytics_api.Domain.Models.{InsightInput, Float, GeneratedInsight}
use portfolio_analytics_api.Common.{
  sym, ap, List, [], ◌∷◌, ◌++◌, ◌&&◌, if◌then◌else◌, Option, Bool, ◌⊎◌, length, ℕ, ◌≡◌, ◌≤◌, arith,
  inr, inl, some, none, false, true, refl,
}
use portfolio_analytics_api.Errors.{value_error, Result, ok, err}
use portfolio_analytics_api.MarketData.Cache.{Formats, CacheServer}

pub record IsBounded (g : GeneratedInsight) : Type 0 where
  pub not_empty : 1 ≤ length g.summary
  pub not_long : length g.summary ≤ 1200
  pub few_limitations : length g.additional_limitations ≤ 3

is_cacheable-IsBounded : (g : GeneratedInsight) → is_cacheable g ≡ true → IsBounded g
is_cacheable-IsBounded g h = record {
  not_empty = ground arith;
  not_long = ground arith;
  few_limitations = ground arith;
}

eq_ℤ→eq_one : (version : ℤ) → eq_ℤ version (pos 1) ≡ true → version ≡ pos 1
eq_ℤ→eq_one (pos n) h = ground arith
eq_ℤ→eq_one (negsuc n) h = absurd (ground arith)

IsBounded-is_cacheable : (g : GeneratedInsight) → IsBounded g → is_cacheable g ≡ true
IsBounded-is_cacheable g h =
    let a = h.not_empty in let b = h.not_long in let c = h.few_limitations in ground arith

-- Texts with colons between them.
abbrev pub colon_joined : List Text → Text
colon_joined [] = []
colon_joined (x ∷ []) = x
colon_joined (x ∷ y ∷ xs) = x ++ text ":" ++ colon_joined (y ∷ xs)

module _ {S : Type 0} (server : CacheServer S) (format : InsightFormat) (ttl_seconds : ℕ)
    (namespace : Text) (digest : Text → Text) (fm : Formats) (number : Float → Json)
    (generator : InsightGenerator) where
  -- What the server answers for an input: the key is the namespace, the version of the entries, the
  -- names of the generator, the model and the prompt, and the digest of the serialized input, with
  -- colons between them.
  abbrev pub answer_for : InsightInput → S → Option (Option Text)
  answer_for input s =
      (server.read_entry
        (colon_joined (
          namespace
          ∷ text "v1"
          ∷ generator.generator_name
          ∷ generator.generator_model
          ∷ generator.generator_prompt
          ∷ digest (serialize_insight_input fm number input)
          ∷ []))
        s).0

  -- The server holds the insight for the input, as version 1 and within the bounds.
  abbrev pub IsEntry : InsightInput → S → GeneratedInsight → Type 0
  IsEntry input s g =
      (raw : Text) × (answer_for input s ≡ some (some raw))
      × (format.read_insight raw ≡ some (pos 1, g))
      × IsBounded g

  abbrev pub HasNone : InsightInput → S → Type 0
  HasNone input s = (g : GeneratedInsight) → ¬ (IsEntry input s g)

  -- Where a result or an error comes from.
  abbrev pub IsProvided : InsightInput → S → Result GeneratedInsight → Type 0
  IsProvided input s (ok g) =
      IsEntry input s g
      ⊎ (HasNone input s
          × (generator.run input ≡ ok g)
          × ((answer_for input s ≡ none) ⊎ IsBounded g))
  IsProvided input s (err e) =
      HasNone input s
      × ((generator.run input ≡ err e)
          ⊎ ((e ≡ value_error)
              × ¬ (answer_for input s ≡ none)
              × ((g : GeneratedInsight) × (generator.run input ≡ ok g) × ¬ (IsBounded g))))

  module _ (key : Text) (input : InsightInput) (s s' : S) where
    keep_insight-IsProvided :
        (fits : Bool) (g : GeneratedInsight)
        → is_cacheable g ≡ fits
        → HasNone input s
        → ¬ (answer_for input s ≡ none)
        → generator.run input ≡ ok g
        → IsProvided input s
            (keep_insight server format ttl_seconds namespace digest fm number generator fits key g
              s').0
    keep_insight-IsProvided false g h absent up e =
        (absent, inr (refl, up, (g, e, λ b. absurd (cc (IsBounded-is_cacheable g b)))))
    keep_insight-IsProvided true g h absent up e = inr (absent, e, inr (is_cacheable-IsBounded g h))

    -- The generator is asked, and the server answered before.
    run_up-IsProvided :
        (answer : Result GeneratedInsight)
        → HasNone input s
        → ¬ (answer_for input s ≡ none)
        → generator.run input ≡ answer
        → IsProvided input s
            (after_run server format ttl_seconds namespace digest fm number generator true key
              answer s').0
    run_up-IsProvided (err x) absent up e = (absent, inl e)
    run_up-IsProvided (ok g) absent up e =
        keep_insight-IsProvided (is_cacheable g) g refl absent up e

    -- The generator is asked, and the server failed.
    run_down-IsProvided :
        (answer : Result GeneratedInsight)
        → answer_for input s ≡ none
        → generator.run input ≡ answer
        → IsProvided input s
            (after_run server format ttl_seconds namespace digest fm number generator false key
              answer s').0
    run_down-IsProvided (err x) down e = (λ g (raw, held, read, b). absurd (cc), inl e)
    run_down-IsProvided (ok g) down e = inr (λ h (raw, held, read, b). absurd (cc), e, inl down)

    parsed-IsProvided :
        (fits : Bool) (raw : Text) (version : ℤ) (g : GeneratedInsight)
        → (eq_ℤ version (pos 1) && is_cacheable g) ≡ fits
        → answer_for input s ≡ some (some raw)
        → format.read_insight raw ≡ some (version, g)
        → IsProvided input s
            (after_parse server format ttl_seconds namespace digest fm number generator
              (if fits then some g else none)
              key
              input
              s').0
    parsed-IsProvided true raw version g h held read =
        let one : version ≡ pos 1 = eq_ℤ→eq_one version (ground arith) in
        inl (raw, held, cc, is_cacheable-IsBounded g (ground arith))
    parsed-IsProvided false raw version g h held read =
        run_up-IsProvided (generator.run input)
          (λ g' (raw', held', read', bounded). absurd (ground arith)) (λ down. absurd (cc)) refl

    after_parse-IsProvided :
        (raw : Text) (parsed : Option (ℤ × GeneratedInsight))
        → answer_for input s ≡ some (some raw)
        → format.read_insight raw ≡ parsed
        → IsProvided input s
            (after_parse server format ttl_seconds namespace digest fm number generator
              (usable_insight parsed)
              key
              input
              s').0
    after_parse-IsProvided raw none held read =
        run_up-IsProvided (generator.run input) (λ g (raw', held', read', bounded). absurd (cc))
          (λ down. absurd (cc)) refl
    after_parse-IsProvided raw (some (version, g)) held read =
        parsed-IsProvided (eq_ℤ version (pos 1) && is_cacheable g) raw version g refl held read

    after_lookup-IsProvided :
        (found : Option (Option Text))
        → answer_for input s ≡ found
        → IsProvided input s
            (after_lookup server format ttl_seconds namespace digest fm number generator found key
              input s').0
    after_lookup-IsProvided none e = run_down-IsProvided (generator.run input) e refl
    after_lookup-IsProvided (some none) e =
        run_up-IsProvided (generator.run input) (λ g (raw, held, read, b). absurd (cc))
          (λ down. absurd (cc)) refl
    after_lookup-IsProvided (some (some raw)) e =
        after_parse-IsProvided raw (format.read_insight raw) e refl

  insight_key-colon_joined :
      (input : InsightInput)
      → insight_key server format ttl_seconds namespace digest fm number generator input
        ≡ colon_joined (
            namespace
            ∷ text "v1"
            ∷ generator.generator_name
            ∷ generator.generator_model
            ∷ generator.generator_prompt
            ∷ digest (serialize_insight_input fm number input)
            ∷ [])
  unfolding insight_key serialize_insight_input
  insight_key-colon_joined input = simp (append_assoc)

  -- Whether or not the server answers, an insight that is returned is the one that the server holds
  -- for this input (under the namespace, `v1`, the names of the generator, the model and the prompt
  -- and the digest of the serialized input), as version 1 and within the bounds: a summary of 1 to
  -- 1200 characters and at most three limitations. Only where it holds none, it is the generator's
  -- answer for this input, which is within the bounds unless the server failed. An error is raised
  -- only where the server holds no such entry: the generator's own error, or a validation error
  -- where the server answered and the generator's answer is not within the bounds.
  pub cached_generate-IsProvided :
      (input : InsightInput) (s : S)
      → IsProvided input s
          (cached_generate server format ttl_seconds namespace digest fm number generator input s).0
  unfolding cached_generate
  cached_generate-IsProvided input s =
      let joined = insight_key-colon_joined input in
      after_lookup-IsProvided _ input s _ _ (ap (λ k. (server.read_entry k s).0) (sym joined))

  module _ (up : IsUp server) (input : InsightInput) (g : GeneratedInsight) (s : S) where
    abbrev own_key : Text
    own_key = insight_key server format ttl_seconds namespace digest fm number generator input

    -- With a server that is up, so that a written entry is read back and is neither expired nor
    -- lost, with a format that reads back the insight it wrote, and with an answer of the generator
    -- that is within the bounds: what a call that found nothing keeps is found by the next call for
    -- the same input, while the names of the generator, the model and the prompt are the same. It
    -- returns the insight of the first call, whatever the generator would answer by then.
    pub cached_generate-twice :
        (later : InsightInput → Result GeneratedInsight)
        → format.read_insight (format.dump_insight (pos 1) g) ≡ some (pos 1, g)
        → (server.read_entry own_key s).0 ≡ some none
        → generator.run input ≡ ok g
        → IsBounded g
        → (cached_generate server format ttl_seconds namespace digest fm number
            (record generator { run = later })
            input
            (cached_generate server format ttl_seconds namespace digest fm number generator input
              s).1).0
          ≡ ok g
    unfolding cached_generate insight_key
    cached_generate-twice later law missing answered bounded =
        let fits = IsBounded-is_cacheable g bounded in
        let s1 = (server.read_entry own_key s).1 in
        let kept = up.read_written own_key (format.dump_insight (pos 1) g) ttl_seconds s1 in
        rw (cached_generate, missing, answered, fits, kept, law) (rw fits refl)
