-- ===== src/Domain/Valuation/Quotes.antt =====
-- The prices that `build_portfolio_valuation` carries forward, said without its loop: the price of
-- a symbol is the one on the last of the days seen that has a price for it, and the value of a
-- position is its quantity times that price.
use portfolio_analytics_api.Common.Text.{text_eq, Text}
use portfolio_analytics_api.Decimal.{mul, Decimal}
use portfolio_analytics_api.Domain.Models.{Date}
use portfolio_analytics_api.Domain.Quantities.{Dict, lookup, lookup-insert}
use portfolio_analytics_api.Domain.Valuation.{price_on, Prices}
use portfolio_analytics_api.Domain.Valuation.Build.{asset_values, update_price, update_latest}
use portfolio_analytics_api.Common.{
  Option-cases, arith, sym, if◌then◌else◌, Bool-cases, ap, ◌∙◌, ◌≡◌, ◌++◌, Option, List, inl, inr,
  ◌∷◌, [], some, none, refl,
}

-- `a` if there is one, and else `b`.
abbrev or_else : Option Decimal → Option Decimal → Option Decimal
or_else none b = b
or_else (some x) b = some x

or_else_assoc : (a b c : Option Decimal) → or_else (or_else a b) c ≡ or_else a (or_else b c)
or_else_assoc none b c = refl
or_else_assoc (some x) b c = refl

-- The price of a symbol on a day, if the day has one.
abbrev quote : Text → Date → Dict Prices → Option Decimal
quote symbol day [] = none
quote symbol day ((s, prices) ∷ all) =
    or_else (quote symbol day all) (if text_eq s symbol then price_on day prices else none)

-- The last price of a symbol in the days, or the one before them.
abbrev pub last_quote : Text → Dict Prices → List Date → Option Decimal → Option Decimal
last_quote symbol all [] before = before
last_quote symbol all (day ∷ days) before =
    last_quote symbol all days (or_else (quote symbol day all) before)

pub last_quote-append :
    (symbol : Text) (all : Dict Prices) (xs ys : List Date) (before : Option Decimal)
    → last_quote symbol all (xs ++ ys) before
      ≡ last_quote symbol all ys (last_quote symbol all xs before)
last_quote-append symbol all [] ys before = refl
last_quote-append symbol all (x ∷ xs) ys before =
    last_quote-append symbol all xs ys (or_else (quote symbol x all) before)

lookup-update_price :
    (symbol s : Text) (price : Option Decimal) (latest : Dict Decimal)
    → lookup symbol (update_price s price latest)
      ≡ or_else (if text_eq s symbol then price else none) (lookup symbol latest)
lookup-update_price symbol s none latest = elim (Bool-cases (text_eq s symbol)) [
  | inl e ↦ rw e
  | inr e ↦ rw e
]
lookup-update_price symbol s (some x) latest = elim (Bool-cases (text_eq s symbol)) [
  | inl e ↦ rw (lookup-insert symbol s x latest, e)
  | inr e ↦ rw (lookup-insert symbol s x latest, e)
]

pub lookup-update_latest :
    (symbol : Text) (day : Date) (all : Dict Prices) (latest : Dict Decimal)
    → lookup symbol (update_latest day all latest)
      ≡ or_else (quote symbol day all) (lookup symbol latest)
lookup-update_latest symbol day [] latest = refl
lookup-update_latest symbol day ((s, prices) ∷ all) latest =
    lookup-update_latest symbol day all (update_price s (price_on day prices) latest)
    ∙ ap (or_else (quote symbol day all))
        (lookup-update_price symbol s (price_on day prices) latest)
    ∙ sym (or_else_assoc (quote symbol day all) _ (lookup symbol latest))

-- The values of positions, one for each and in their order: the quantity times a price of the
-- symbol.
abbrev pub ArePriced : (Text → Option Decimal) → Dict Decimal → Dict Decimal → Type 0
ArePriced price [] [] = Unit
ArePriced price [] (v ∷ values) = ⊥
ArePriced price (x ∷ active) [] = ⊥
ArePriced price ((symbol, quantity) ∷ active) ((s, value) ∷ values) =
    (s ≡ symbol)
    × ((p : Decimal) × (price symbol ≡ some p) × (value ≡ mul quantity p))
    × ArePriced price active values

pub ArePriced-eq :
    (f g : Text → Option Decimal) (active values : Dict Decimal)
    → ((symbol : Text) → f symbol ≡ g symbol)
    → ArePriced f active values
    → ArePriced g active values
ArePriced-eq f g [] [] same h = tt
ArePriced-eq f g [] (v ∷ values) same h = h
ArePriced-eq f g (x ∷ active) [] same h = h
ArePriced-eq f g ((symbol, quantity) ∷ active) ((s, value) ∷ values) same
      (e, (p, found, worth), rest) =
    (e, (p, sym (same symbol) ∙ found, worth), ArePriced-eq f g active values same rest)

pub asset_values-ArePriced :
    (active latest values : Dict Decimal)
    → asset_values active latest ≡ some values
    → ArePriced (λ symbol. lookup symbol latest) active values
unfolding asset_values
asset_values-ArePriced [] latest [] h = tt
asset_values-ArePriced [] latest (v ∷ values) h = absurd (cc)
asset_values-ArePriced ((symbol, quantity) ∷ active) latest values h =
    elim (Option-cases (lookup symbol latest)) [
      | inl missing ↦ absurd (ground (arith, missing))
      | inr (p, found) ↦ elim (Option-cases (asset_values active latest)) [
        | inl missing ↦ absurd (ground (arith, missing, found))
        | inr (rest, valued) ↦
            let more = asset_values-ArePriced active latest rest valued in
            let same : (symbol, mul quantity p) ∷ rest ≡ values = ground (arith, found, valued) in
            rw (← same) (refl, (p, found, refl), more)
      ]
    ]
