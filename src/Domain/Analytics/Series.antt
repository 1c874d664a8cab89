-- ===== src/Domain/Analytics/Series.antt =====
-- What a price series that passes `_validate_and_order` is like.
use portfolio_analytics_api.Decimal.{not_above_zero, is_finite}
use portfolio_analytics_api.Decimal.Sign.{IsPositive}
use portfolio_analytics_api.Common.Sort.{sort_by-IsSorted, IsOrder, IsSorted, sort_by}
use portfolio_analytics_api.Domain.Models.{Float, PriceBar, Date}
use portfolio_analytics_api.Domain.Floats.{Floats}
use portfolio_analytics_api.Domain.Analytics.{
  returns_of, date_le, pair_returns, validate_and_order, calculate_simple_returns, check_bars,
}
use portfolio_analytics_api.Common.{
  ◌-◌, ◌==◌, length, ◌≡◌, any, List, arith, ◌∷◌, [], false, true, refl,
}
use portfolio_analytics_api.Errors.{ok, >>=-eq-ok}

-- The closes are finite and above zero, and no date stands twice, neither here nor before.
abbrev pub IsUsable : List Date → List PriceBar → Type 0
IsUsable seen [] = Unit
IsUsable seen (bar ∷ bars) =
    (any (λ d. d == bar.date) seen ≡ false)
    × IsPositive bar.adjusted_close
    × IsUsable (bar.date ∷ seen) bars

check_bars-IsUsable :
    (seen : List Date) (bars : List PriceBar) → check_bars seen bars ≡ ok tt → IsUsable seen bars
unfolding check_bars
check_bars-IsUsable seen [] h = tt
check_bars-IsUsable seen (bar ∷ bars) h =
    let fresh : any (λ d. d == bar.date) seen ≡ false = ground arith in
    let finite_close : is_finite bar.adjusted_close ≡ true = ground arith in
    let above : not_above_zero bar.adjusted_close ≡ false = ground arith in
    let rest : check_bars (bar.date ∷ seen) bars ≡ ok tt = ground arith in
    (fresh, (finite_close, above), check_bars-IsUsable (bar.date ∷ seen) bars rest)

pair_returns-length :
    (fl : Floats) (bar : PriceBar) (bars : List PriceBar)
    → length (pair_returns fl bar bars) ≡ length bars
pair_returns-length fl bar [] = refl
pair_returns-length fl bar (x ∷ bars) = rw (pair_returns-length fl x bars) refl

date_order : IsOrder date_le
date_order = record { total = λ a b h. ground arith; trans = λ a b c h k. ground arith }

returns_of-length :
    (fl : Floats) (bars : List PriceBar) → length (returns_of fl bars) ≡ length bars - 1
returns_of-length fl [] = ground arith
returns_of-length fl (bar ∷ bars) = ground (arith, pair_returns-length fl bar bars)

-- When `calculate_simple_returns` returns, the bars in order of their dates have finite closes
-- above zero and no date twice, and there is one return for each bar after the first.
pub calculate_simple_returns-IsUsable :
    (fl : Floats) (bars : List PriceBar) (returns : List Float)
    → calculate_simple_returns fl bars ≡ ok returns
    → IsUsable [] (sort_by date_le bars)
      × IsSorted date_le (sort_by date_le bars)
      × (length returns ≡ length (sort_by date_le bars) - 1)
unfolding calculate_simple_returns validate_and_order
calculate_simple_returns-IsUsable fl bars returns h =
    let (ordered, validated, made) = >>=-eq-ok (validate_and_order bars) _ h in
    let (_, checked, listed) = >>=-eq-ok (check_bars [] (sort_by date_le bars)) _ validated in
    let same : sort_by date_le bars ≡ ordered = ground arith in
    let ends : returns_of fl ordered ≡ returns = ground arith in
    (
      check_bars-IsUsable [] (sort_by date_le bars) checked,
      sort_by-IsSorted date_le date_order bars,
      rw (← ends, same) (returns_of-length fl ordered),
    )
