-- ===== src/Domain/Valuation/Lookahead.antt =====
-- No point of the valuation uses information from after its day: neither later transactions nor
-- later prices.
use portfolio_analytics_api.Domain.Valuation.Days.{value_days-Rounds}
use mathlib.Core.Path.{fun_ext}
use portfolio_analytics_api.Domain.Valuation.{price_on, Prices, apply_transaction, transaction_date}
use portfolio_analytics_api.Domain.Valuation.Points.{WaitsAfter}
use portfolio_analytics_api.Decimal.{add, Decimal}
use portfolio_analytics_api.Domain.Quantities.{Dict}
use portfolio_analytics_api.Domain.Models.{PortfolioValuePoint, Transaction, Date}
use portfolio_analytics_api.Common.{
  sym, ◌∙◌, Option, ap, some, none, leb, keep, All, ◌≤◌, ltb, Bool-cases, ◌≡◌, ◌++◌, List, arith,
  inr, inl, ◌∷◌, [], refl,
}
use portfolio_analytics_api.Errors.{Result-cases, Result, ok, err}
use portfolio_analytics_api.Domain.Valuation.Build.{
  start_replay, with_point, update_price, update_latest, value_days, value_day, Replay, Caught,
  catch_up,
}

-- The outcome with transactions that are still to come.
abbrev pub later_caught : List Transaction → Result Caught → Result Caught
later_caught late (ok c) = ok (record c { remaining = c.remaining ++ late })
later_caught late (err e) = err e

abbrev pub with_late : List Transaction → Replay → Replay
with_late late r = record r { remaining = r.remaining ++ late }

abbrev pub later_end : {A : Type 0} → List Transaction → Result (A × Replay) → Result (A × Replay)
later_end late (ok (a, r)) = ok (a, with_late late r)
later_end late (err e) = err e

catch_up_waiting :
    (day : Date) (late : List Transaction) (d : Dict Decimal) (cash flow : Decimal)
    → WaitsAfter day late
    → catch_up day late d cash flow
      ≡ ok (record { remaining = late; positions = d; cash_balance = cash; flow = flow })
unfolding catch_up
catch_up_waiting day [] d cash flow h = refl
catch_up_waiting day (t ∷ late) d cash flow h = ground arith

catch_up-append :
    (day : Date) (ts late : List Transaction) (d : Dict Decimal) (cash flow : Decimal)
    → WaitsAfter day late
    → catch_up day (ts ++ late) d cash flow ≡ later_caught late (catch_up day ts d cash flow)
unfolding catch_up
catch_up-append day [] late d cash flow h = catch_up_waiting day late d cash flow h
catch_up-append day (t ∷ ts) late d cash flow h = elim (Bool-cases (ltb day (transaction_date t))) [
  | inl later ↦ rw (later, catch_up) refl
  | inr due ↦ elim (Result-cases (apply_transaction d cash t)) [
    | inr (e, bad) ↦ rw (due, bad, catch_up) refl
    | inl (a, fine) ↦
        rw (due, fine, catch_up)
          (catch_up-append day ts late a.positions a.cash_balance (add flow a.external_flow) h)
  ]
]

value_day-with_late :
    (day : Date) (prices : Dict Prices) (late : List Transaction) (r : Replay)
    → WaitsAfter day late
    → value_day day prices (with_late late r) ≡ later_end late (value_day day prices r)
unfolding value_day
value_day-with_late day prices late r h =
    let m = catch_up day r.remaining r.positions r.cash_balance r.pending_external_flow in
    elim (Result-cases m) [
      | inr (e, bad) ↦
          rw (catch_up-append day r.remaining late r.positions r.cash_balance _ h, bad) refl
      | inl (c, fine) ↦
          rw (catch_up-append day r.remaining late r.positions r.cash_balance _ h, fine) refl
    ]

WaitsAfter-le :
    (day cutoff : Date) (late : List Transaction)
    → day ≤ cutoff
    → WaitsAfter cutoff late
    → WaitsAfter day late
WaitsAfter-le day cutoff [] h k = tt
WaitsAfter-le day cutoff (t ∷ late) h k = omega arith

value_days-with_late :
    (cutoff : Date) (prices : Dict Prices) (days : List Date) (late : List Transaction) (r : Replay)
    → All (λ day. day ≤ cutoff) days
    → WaitsAfter cutoff late
    → value_days prices days (with_late late r) ≡ later_end late (value_days prices days r)
unfolding value_days
value_days-with_late cutoff prices [] late r a h = refl
value_days-with_late cutoff prices (day ∷ days) late r a h =
    let one = value_day-with_late day prices late r (WaitsAfter-le day cutoff late a.0 h) in
    elim (Result-cases (value_day day prices r)) [
      | inr (e, bad) ↦ rw (one, bad) refl
      | inl ((point, next), fine) ↦
          let more = value_days-with_late cutoff prices days late next a.1 h in
          elim (Result-cases (value_days prices days next)) [
            | inr (e, bad) ↦ rw (one, fine, more, bad) refl
            | inl ((points, end), done) ↦ rw (one, fine, more, done) refl
          ]
    ]

-- The prices up to a day.
abbrev pub prices_until : Date → Dict Prices → Dict Prices
prices_until cutoff [] = []
prices_until cutoff ((symbol, prices) ∷ all) =
    (symbol, keep (λ item. leb item.0 cutoff) prices) ∷ prices_until cutoff all

price_on-keep :
    (cutoff day : Date) (prices : Prices)
    → day ≤ cutoff
    → price_on day (keep (λ item. leb item.0 cutoff) prices) ≡ price_on day prices
price_on-keep cutoff day [] h = refl
price_on-keep cutoff day ((e, p) ∷ prices) h = ground (arith, price_on-keep cutoff day prices h)

update_latest-prices_until :
    (cutoff day : Date) (all : Dict Prices) (latest : Dict Decimal)
    → day ≤ cutoff
    → update_latest day (prices_until cutoff all) latest ≡ update_latest day all latest
update_latest-prices_until cutoff day [] latest h = refl
update_latest-prices_until cutoff day ((symbol, prices) ∷ all) latest h =
    ap (λ o. update_latest day (prices_until cutoff all) (update_price symbol o latest))
      (price_on-keep cutoff day prices h)
    ∙ update_latest-prices_until cutoff day all (update_price symbol (price_on day prices) latest) h

value_days-prices_until :
    (cutoff : Date) (prices : Dict Prices) (days : List Date) (r : Replay)
    → All (λ day. day ≤ cutoff) days
    → value_days (prices_until cutoff prices) days r ≡ value_days prices days r
unfolding value_days value_day
value_days-prices_until cutoff prices [] r a = refl
value_days-prices_until cutoff prices (day ∷ days) r a =
    rw
      (
        update_latest-prices_until cutoff day prices r.latest_prices a.0,
        fun_ext (λ next. value_days-prices_until cutoff prices days next a.1),
      )
      refl

with_point-append :
    (point : Option PortfolioValuePoint) (xs ys : List PortfolioValuePoint)
    → with_point point (xs ++ ys) ≡ with_point point xs ++ ys
with_point-append none xs ys = refl
with_point-append (some p) xs ys = refl

-- A run over two stretches of days.
pub record Stretches (prices : Dict Prices) (days more : List Date) (r : Replay)
    (points : List PortfolioValuePoint) (r' : Replay) : Type 0 where
  pub early : List PortfolioValuePoint
  pub between : Replay
  pub later : List PortfolioValuePoint
  pub first : value_days prices days r ≡ ok (early, between)
  pub second : value_days prices more between ≡ ok (later, r')
  pub whole : points ≡ early ++ later

value_days_cons :
    (prices : Dict Prices) (day : Date) (days : List Date) (r next r' : Replay)
    (point : Option PortfolioValuePoint) (points : List PortfolioValuePoint)
    → value_day day prices r ≡ ok (point, next)
    → value_days prices days next ≡ ok (points, r')
    → value_days prices (day ∷ days) r ≡ ok (with_point point points, r')
unfolding value_days
value_days_cons prices day days r next r' point points h k = rw (h, k) refl

value_days-Stretches :
    (prices : Dict Prices) (days more : List Date) (r : Replay) (points : List PortfolioValuePoint)
    (r' : Replay)
    → value_days prices (days ++ more) r ≡ ok (points, r')
    → Stretches prices days more r points r'
unfolding value_days
value_days-Stretches prices [] more r points r' h = record {
  early = [];
  between = r;
  later = points;
  first = refl;
  second = h;
  whole = refl;
}
value_days-Stretches prices (day ∷ days) more r points r' h =
    let k = value_days-Rounds prices day (days ++ more) r points r' h in
    let i = value_days-Stretches prices days more k.next k.rest r' k.others in
    record {
      early = with_point k.point i.early;
      between = i.between;
      later = i.later;
      first = value_days_cons prices day days r k.next i.between k.point i.early k.first i.first;
      second = i.second;
      whole =
          sym k.whole ∙ ap (with_point k.point) i.whole ∙ with_point-append k.point i.early i.later;
    }

later_end-ok :
    (late : List Transaction) (m : Result (List PortfolioValuePoint × Replay))
    (points : List PortfolioValuePoint) (r : Replay)
    → later_end late m ≡ ok (points, r)
    → (end : Replay) × (m ≡ ok (points, end))
later_end-ok late (ok (a, end)) points r h = (end, ground arith)
later_end-ok late (err e) points r h = absurd (cc)

-- The points up to a cutoff are those of a ledger and of prices that end at the cutoff: what
-- comes after the cutoff, in the ledger and in the prices, changes none of them.
pub value_days_no_lookahead :
    (cutoff : Date) (prices : Dict Prices) (days more : List Date) (known late : List Transaction)
    (points : List PortfolioValuePoint) (end : Replay)
    → All (λ day. day ≤ cutoff) days
    → WaitsAfter cutoff late
    → value_days prices (days ++ more) (start_replay (known ++ late)) ≡ ok (points, end)
    → (early later : List PortfolioValuePoint) × (between : Replay) × (points ≡ early ++ later)
      × (value_days (prices_until cutoff prices) days (start_replay known) ≡ ok (early, between))
value_days_no_lookahead cutoff prices days more known late points end a h e =
    let k = value_days-Stretches prices days more (start_replay (known ++ late)) points end e in
    let shorter = value_days-with_late cutoff prices days late (start_replay known) a h in
    let (between, ran) =
      later_end-ok late (value_days prices days (start_replay known)) k.early k.between
        (sym shorter ∙ k.first) in
    (
      k.early,
      k.later,
      between,
      k.whole,
      value_days-prices_until cutoff prices days (start_replay known) a ∙ ran,
    )
