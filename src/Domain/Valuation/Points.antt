-- ===== src/Domain/Valuation/Points.antt =====
-- The loop of the valuation: which transactions each day applies, and what holds of its points.
use portfolio_analytics_api.Domain.Valuation.Cash.{apply_transaction-IsApplied}
use portfolio_analytics_api.Domain.Valuation.Funds.{cash_after, apply_transaction-cash_step}
use portfolio_analytics_api.Domain.Valuation.Quotes.{
  ArePriced, asset_values-ArePriced, last_quote, lookup-update_latest,
}
use portfolio_analytics_api.Common.Text.{Text}
use portfolio_analytics_api.Decimal.Sign.{IsNonNegative}
use portfolio_analytics_api.Decimal.{nonzero, zero_decimal, add, not_above_zero, Decimal}
use portfolio_analytics_api.Domain.Quantities.{Dict, lookup}
use portfolio_analytics_api.Domain.Models.{PortfolioValuePoint, Transaction, Date}
use portfolio_analytics_api.Common.{
  keep, ◌∙◌, ap, leb, Bool, Option, ltb→lt, arith, some, none, false, refl, ◌≤◌, ltb, All,
  Bool-cases, ◌++◌, ◌≡◌, ◌<◌, List, inr, inl, ◌∷◌, [],
}
use portfolio_analytics_api.Errors.{ok, >>=-eq-ok}
use portfolio_analytics_api.Domain.Valuation.Build.{
  next_replay, sum_values, active_positions, update_latest, valued_point, Replay, Caught, catch_up,
  value_day, asset_values,
}
use portfolio_analytics_api.Domain.Valuation.{Prices, transaction_date, apply_transaction}
use portfolio_analytics_api.Domain.Holdings.{replay}

-- The first of the transactions that are left, if any, is dated after the day.
abbrev pub WaitsAfter : Date → List Transaction → Type 0
WaitsAfter day [] = Unit
WaitsAfter day (t ∷ ts) = day < transaction_date t

-- What catching up with a day has done.
pub record IsCaught (day : Date) (ts : List Transaction) (d : Dict Decimal) (cash : Decimal)
    (c : Caught) : Type 0 where
  pub consumed : List Transaction
  pub split : ts ≡ consumed ++ c.remaining
  pub dated : All (λ t. transaction_date t ≤ day) consumed
  pub waiting : WaitsAfter day c.remaining
  pub replayed : replay consumed d ≡ ok c.positions
  pub paid : c.cash_balance ≡ cash_after consumed cash
  pub cash_kept : IsNonNegative cash → IsNonNegative c.cash_balance

abbrev stop : Transaction → List Transaction → Dict Decimal → Decimal → Decimal → Caught
stop t ts d cash flow = record {
  remaining = t ∷ ts;
  positions = d;
  cash_balance = cash;
  flow = flow;
}

pub catch_up-IsCaught :
    (day : Date) (ts : List Transaction) (d : Dict Decimal) (cash flow : Decimal) (c : Caught)
    → catch_up day ts d cash flow ≡ ok c
    → IsCaught day ts d cash c
unfolding catch_up replay
catch_up-IsCaught day [] d cash flow c h =
    let same : record { remaining = []; positions = d; cash_balance = cash; flow = flow } ≡ c =
      ground arith in
    rw (← same) (record {
      consumed = [];
      split = refl;
      dated = tt;
      waiting = tt;
      replayed = refl;
      paid = refl;
      cash_kept = λ k. k;
    })
catch_up-IsCaught day (t ∷ ts) d cash flow c h = elim (Bool-cases (ltb day (transaction_date t))) [
  | inl later ↦
      let stopped : ok (stop t ts d cash flow) ≡ ok c = rw (later, catch_up) at h in
      let same : stop t ts d cash flow ≡ c = ground arith in
      rw (← same) (record {
        consumed = [];
        split = refl;
        dated = tt;
        waiting = ltb→lt day (transaction_date t) later;
        replayed = refl;
        paid = refl;
        cash_kept = λ k. k;
      })
  | inr due ↦
      let (a, applied, rest) = >>=-eq-ok (apply_transaction d cash t) _ (rw (due, catch_up) at h) in
      let one = apply_transaction-IsApplied d cash t a applied in
      let more =
        catch_up-IsCaught day ts a.positions a.cash_balance (add flow a.external_flow) c rest in
      record {
        consumed = t ∷ more.consumed;
        split = ap (◌∷◌ t) more.split;
        dated = (ground (arith), more.dated);
        waiting = more.waiting;
        replayed = rw one.positions_moved more.replayed;
        paid =
            more.paid
            ∙ ap (cash_after more.consumed) (apply_transaction-cash_step d cash t a applied);
        cash_kept = λ k. more.cash_kept (one.cash_kept k.0);
      }
]

abbrev pub point_le : PortfolioValuePoint → PortfolioValuePoint → Bool
point_le a b = leb a.date b.date

-- A point of a valuation: its total is above zero, its cash is not below zero.
abbrev pub IsSolvent : PortfolioValuePoint → Type 0
IsSolvent p = (not_above_zero p.total_value ≡ false) × IsNonNegative p.cash_balance

abbrev pub OnPoint {κ} : (PortfolioValuePoint → Type κ) → Option PortfolioValuePoint → Type κ
OnPoint P none = Unit
OnPoint P (some p) = P p

-- The figures of a point: the cash, and the cash with the values of all positions that are not
-- zero, each the quantity times the latest price of its symbol.
pub record IsWorth (r : Replay) (p : PortfolioValuePoint) : Type 0 where
  pub values : Dict Decimal
  pub each :
      ArePriced
        (λ symbol. lookup symbol r.latest_prices)
        (keep (λ item. nonzero item.1) r.positions)
        values
  pub cash : p.cash_balance ≡ r.cash_balance
  pub total : p.total_value ≡ add r.cash_balance (sum_values zero_decimal values)

-- One day of the loop.
pub record IsValued (day : Date) (prices : Dict Prices) (r : Replay)
    (point : Option PortfolioValuePoint) (r' : Replay) : Type 0 where
  pub consumed : List Transaction
  pub split : r.remaining ≡ consumed ++ r'.remaining
  pub dated : All (λ t. transaction_date t ≤ day) consumed
  pub waiting : WaitsAfter day r'.remaining
  pub replayed : replay consumed r.positions ≡ ok r'.positions
  pub paid : r'.cash_balance ≡ cash_after consumed r.cash_balance
  pub priced :
      (symbol : Text)
      → lookup symbol r'.latest_prices
        ≡ last_quote symbol prices (day ∷ []) (lookup symbol r.latest_prices)
  pub worth : OnPoint (IsWorth r') point
  pub cash_kept : IsNonNegative r.cash_balance → IsNonNegative r'.cash_balance
  pub on_day : OnPoint (λ p. p.date ≡ day) point
  pub solvent : IsNonNegative r.cash_balance → OnPoint IsSolvent point

valued_point-OnPoint :
    (day : Date) (cash flow : Decimal) (values : Option (Dict Decimal))
    → IsNonNegative cash
    → OnPoint IsSolvent (valued_point day cash flow values)
valued_point-OnPoint day cash flow none k = tt
valued_point-OnPoint day cash flow (some values) k =
    elim (Bool-cases (not_above_zero (add cash (sum_values zero_decimal values)))) [
      | inl e ↦ rw e tt
      | inr e ↦ rw e (e, k)
    ]

valued_point-day :
    (day : Date) (cash flow : Decimal) (values : Option (Dict Decimal))
    → OnPoint (λ p. p.date ≡ day) (valued_point day cash flow values)
valued_point-day day cash flow none = tt
valued_point-day day cash flow (some values) =
    elim (Bool-cases (not_above_zero (add cash (sum_values zero_decimal values)))) [
      | inl e ↦ rw e tt
      | inr e ↦ rw e refl
    ]

valued_point-IsWorth :
    (day : Date) (r : Replay) (flow : Decimal) (values : Option (Dict Decimal))
    → asset_values (active_positions r.positions) r.latest_prices ≡ values
    → OnPoint (IsWorth r) (valued_point day r.cash_balance flow values)
valued_point-IsWorth day r flow none h = tt
valued_point-IsWorth day r flow (some values) h =
    elim (Bool-cases (not_above_zero (add r.cash_balance (sum_values zero_decimal values)))) [
      | inl e ↦ rw e tt
      | inr e ↦ rw e (record {
        values = values;
        each = asset_values-ArePriced _ r.latest_prices values h;
        cash = refl;
        total = refl;
      })
    ]

pub value_day-IsValued :
    (day : Date) (prices : Dict Prices) (r : Replay) (point : Option PortfolioValuePoint)
    (r' : Replay)
    → value_day day prices r ≡ ok (point, r')
    → IsValued day prices r point r'
unfolding value_day
value_day-IsValued day prices r point r' h =
    let (c, caught, ended) =
      >>=-eq-ok (catch_up day r.remaining r.positions r.cash_balance r.pending_external_flow) _ h in
    let k = catch_up-IsCaught day r.remaining r.positions r.cash_balance _ c caught in
    let latest = update_latest day prices r.latest_prices in
    let values = asset_values (active_positions c.positions) latest in
    let made = valued_point day c.cash_balance c.flow values in
    let same_point : made ≡ point = ground arith in
    let same_state : next_replay c latest made ≡ r' = ground arith in
    rw (← same_point, ← same_state)
      (record {
        consumed = k.consumed;
        split = k.split;
        dated = k.dated;
        waiting = k.waiting;
        replayed = k.replayed;
        paid = k.paid;
        priced = λ symbol. lookup-update_latest symbol day prices r.latest_prices;
        worth = valued_point-IsWorth day (next_replay c latest made) c.flow values refl;
        cash_kept = k.cash_kept;
        on_day = valued_point-day day c.cash_balance c.flow values;
        solvent = λ n. valued_point-OnPoint day c.cash_balance c.flow values (k.cash_kept n);
      })
