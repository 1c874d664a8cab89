-- ===== src/MarketData/Series.antt =====
-- What every adapter of market data promises of the bars that it returns, and how collecting rows
-- one by one and sorting them by date keeps the promise.
use portfolio_analytics_api.Decimal.Sign.{IsPositive}
use portfolio_analytics_api.Common.Sort.{
  sort_by-IsAscending, All-sort_by, sort_by, insert_by, Distinct, Apart, IsAscending, IsOrder,
}
use portfolio_analytics_api.Common.Text.{Text}
use portfolio_analytics_api.Domain.Models.{Date, PriceBar}
use portfolio_analytics_api.Common.{
  ◌<◌, ==→eq, All-imp, ap, Bool-cases, inr, inl, refl, ◌==◌, any, All, ◌≤◌, leb, ◌≢◌, ◌≡◌, Bool,
  List, arith, ◌∷◌, [], false, true,
}

abbrev pub bar_le : PriceBar → PriceBar → Bool
bar_le a b = leb a.date b.date

-- The symbol asked for, a date in the range, a finite close above zero.
pub record IsQuoted (symbol : Text) (start_date end_date : Date) (bar : PriceBar) : Type 0 where
  pub of_symbol : bar.symbol ≡ symbol
  pub not_early : start_date ≤ bar.date
  pub not_late : bar.date ≤ end_date
  pub priced : IsPositive bar.adjusted_close

-- Some bars, quoted as asked, in ascending order of their dates, no date twice.
pub record IsSeries (symbol : Text) (start_date end_date : Date) (bars : List PriceBar)
    : Type 0 where
  pub some_bars : bars ≢ []
  pub quoted : All (IsQuoted symbol start_date end_date) bars
  pub ascending : IsAscending bar_le bars

abbrev pub seen_date : Date → List Date → Bool
seen_date d seen = any (λ e. e == d) seen

-- No date of the bars has been seen, and none stands twice.
abbrev pub IsFresh : List Date → List PriceBar → Type 0
IsFresh seen [] = Unit
IsFresh seen (bar ∷ bars) = (seen_date bar.date seen ≡ false) × IsFresh (bar.date ∷ seen) bars

pub bar_order : IsOrder bar_le
bar_order = record { total = λ a b h. ground arith; trans = λ a b c h k. ground arith }

IsFresh-All :
    (d : Date) (seen : List Date) (bars : List PriceBar)
    → IsFresh seen bars
    → seen_date d seen ≡ true
    → All (λ b. (d == b.date) ≡ false) bars
IsFresh-All d seen [] f h = tt
IsFresh-All d seen (bar ∷ bars) f h =
    let other : (d == bar.date) ≡ false = elim (Bool-cases (d == bar.date)) [
      | inr e ↦ e
      | inl e ↦ absurd (cc (ap (λ k. seen_date k seen) (==→eq d bar.date e)))
    ] in
    (other, IsFresh-All d (bar.date ∷ seen) bars f.1 (ground arith))

Apart-date : (a b : PriceBar) → (a.date == b.date) ≡ false → Apart bar_le a b
Apart-date a b h = ground arith

IsFresh-Distinct :
    (seen : List Date) (bars : List PriceBar) → IsFresh seen bars → Distinct bar_le bars
IsFresh-Distinct seen [] f = tt
IsFresh-Distinct seen (bar ∷ bars) f = (
  All-imp (λ b. (bar.date == b.date) ≡ false) (Apart bar_le bar) (Apart-date bar) bars
      (IsFresh-All bar.date (bar.date ∷ seen) bars f.1 (ground arith)),
  IsFresh-Distinct (bar.date ∷ seen) bars f.1,
)

insert_by-ne_nil : (b : PriceBar) (bars : List PriceBar) → insert_by bar_le b bars ≢ []
insert_by-ne_nil b [] e = cc
insert_by-ne_nil b (x ∷ bars) e = ground arith

sort_by-ne_nil : (bars : List PriceBar) → bars ≢ [] → sort_by bar_le bars ≢ []
unfolding sort_by
sort_by-ne_nil [] h e = h refl
sort_by-ne_nil (bar ∷ bars) h e = insert_by-ne_nil bar (sort_by bar_le bars) e

-- Bars that were collected one by one, with their dates watched, and sorted make a series.
pub sort_by-IsSeries :
    (symbol : Text) (start_date end_date : Date) (bars : List PriceBar)
    → bars ≢ []
    → All (IsQuoted symbol start_date end_date) bars
    → IsFresh [] bars
    → IsSeries symbol start_date end_date (sort_by bar_le bars)
sort_by-IsSeries symbol start_date end_date bars h q f = record {
  some_bars = sort_by-ne_nil bars h;
  quoted = All-sort_by bar_le (IsQuoted symbol start_date end_date) bars q;
  ascending = sort_by-IsAscending bar_le bar_order bars (IsFresh-Distinct [] bars f);
}

-- All of the seen dates lie before the date.
abbrev Before : List Date → PriceBar → Type 0
Before seen bar = All (λ d. d < bar.date) seen

Before-fresh :
    (seen : List Date) (bar : PriceBar) → Before seen bar → seen_date bar.date seen ≡ false
Before-fresh [] bar h = refl
Before-fresh (d ∷ seen) bar h =
    let rest = Before-fresh seen bar h.1 in let less = h.0 in ground arith

Before-bars :
    (seen : List Date) (bar : PriceBar) (bars : List PriceBar)
    → All (Before seen) bars
    → All (λ b. (bar_le bar b ≡ true) × (bar_le b bar ≡ false)) bars
    → All (Before (bar.date ∷ seen)) bars
Before-bars seen bar [] h a = tt
Before-bars seen bar (b ∷ bars) h a =
    let below = a.0.1 in ((ground arith, h.0), Before-bars seen bar bars h.1 a.1)

IsFresh-ascending :
    (seen : List Date) (bars : List PriceBar)
    → All (Before seen) bars
    → IsAscending bar_le bars
    → IsFresh seen bars
IsFresh-ascending seen [] h a = tt
IsFresh-ascending seen (bar ∷ bars) h a = (
  Before-fresh seen bar h.0,
  IsFresh-ascending (bar.date ∷ seen) bars (Before-bars seen bar bars h.1 a.0) a.1,
)

All-Before_nil : (bars : List PriceBar) → All (Before []) bars
All-Before_nil [] = tt
All-Before_nil (bar ∷ bars) = (tt, All-Before_nil bars)

pub IsAscending-IsFresh : (bars : List PriceBar) → IsAscending bar_le bars → IsFresh [] bars
IsAscending-IsFresh bars a = IsFresh-ascending [] bars (All-Before_nil bars) a
