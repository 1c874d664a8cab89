-- ===== src/Domain/Valuation/Days.antt =====
-- All days of the valuation together: the transactions that it has applied, the positions that
-- they leave, and the order and the signs of its points.
use mathlib.Core.List.{append_assoc}
use portfolio_analytics_api.Decimal.Sign.{IsNonNegative}
use portfolio_analytics_api.Common.Sort.{IsAscending}
use portfolio_analytics_api.Domain.Valuation.Points.{
  IsSolvent, point_le, value_day-IsValued, OnPoint,
}
use portfolio_analytics_api.Decimal.{Decimal}
use portfolio_analytics_api.Domain.Valuation.{Prices}
use portfolio_analytics_api.Domain.Quantities.{Dict}
use portfolio_analytics_api.Domain.Models.{Transaction, Date, PortfolioValuePoint}
use portfolio_analytics_api.Common.{
  refl, sym, ap, leb, ◌∙◌, ◌++◌, All, ◌≡◌, Option, List, arith, ◌∷◌, [], some, none, false, true,
}
use portfolio_analytics_api.Errors.{ok, >>=-eq-ok}
use portfolio_analytics_api.Domain.Valuation.Build.{with_point, Replay, value_day, value_days}
use portfolio_analytics_api.Domain.Holdings.{replay, ledger_step}

pub replay-append :
    (xs ys : List Transaction) (d m d' : Dict Decimal)
    → replay xs d ≡ ok m
    → replay ys m ≡ ok d'
    → replay (xs ++ ys) d ≡ ok d'
unfolding replay
replay-append [] ys d m d' h k = cc
replay-append (x ∷ xs) ys d m d' h k =
    let (n, first, rest) = >>=-eq-ok (ledger_step x.transaction_type x d) (replay xs) h in
    rw first (replay-append xs ys n m d' rest k)

-- What the loop over `days` has done.
pub record IsReplayed (r : Replay) (points : List PortfolioValuePoint) (r' : Replay) : Type 0 where
  pub consumed : List Transaction
  pub split : r.remaining ≡ consumed ++ r'.remaining
  pub replayed : replay consumed r.positions ≡ ok r'.positions
  pub solvent : IsNonNegative r.cash_balance → All IsSolvent points

pub All-with_point {κ} :
    (P : PortfolioValuePoint → Type κ) (point : Option PortfolioValuePoint)
    (points : List PortfolioValuePoint)
    → OnPoint P point
    → All P points
    → All P (with_point point points)
All-with_point P none points h k = k
All-with_point P (some p) points h k = (h, k)

-- The days of a loop: the first round, the others, and how they make up the result.
pub record Rounds (prices : Dict Prices) (day : Date) (days : List Date) (r : Replay)
    (points : List PortfolioValuePoint) (r' : Replay) : Type 0 where
  pub point : Option PortfolioValuePoint
  pub next : Replay
  pub rest : List PortfolioValuePoint
  pub first : value_day day prices r ≡ ok (point, next)
  pub others : value_days prices days next ≡ ok (rest, r')
  pub whole : with_point point rest ≡ points

pub value_days-Rounds :
    (prices : Dict Prices) (day : Date) (days : List Date) (r : Replay)
    (points : List PortfolioValuePoint) (r' : Replay)
    → value_days prices (day ∷ days) r ≡ ok (points, r')
    → Rounds prices day days r points r'
unfolding value_days
value_days-Rounds prices day days r points r' h =
    let ((point, next), first, h1) = >>=-eq-ok (value_day day prices r) _ h in
    let ((rest, end), others, h2) = >>=-eq-ok (value_days prices days next) _ h1 in
    let same_end : end ≡ r' = ground arith in
    record {
      point = point;
      next = next;
      rest = rest;
      first = first;
      others = others ∙ ap (λ x. ok (rest, x)) same_end;
      whole = ground arith;
    }

pub value_days-nil :
    (prices : Dict Prices) (r : Replay) (points : List PortfolioValuePoint) (r' : Replay)
    → value_days prices [] r ≡ ok (points, r')
    → (points ≡ []) × (r ≡ r')
unfolding value_days
value_days-nil prices r points r' h = (ground arith, ground arith)

-- The loop applies a prefix of the ledger, replays it as holdings.py does, and every point is
-- solvent if the cash began at zero or more.
pub value_days-IsReplayed :
    (prices : Dict Prices) (days : List Date) (r : Replay) (points : List PortfolioValuePoint)
    (r' : Replay)
    → value_days prices days r ≡ ok (points, r')
    → IsReplayed r points r'
unfolding replay
value_days-IsReplayed prices [] r points r' h =
    let (none_made, same) = value_days-nil prices r points r' h in
    rw (none_made, ← same)
      (record { consumed = []; split = refl; replayed = refl; solvent = λ _. tt })
value_days-IsReplayed prices (day ∷ days) r points r' h =
    let k = value_days-Rounds prices day days r points r' h in
    let one = value_day-IsValued day prices r k.point k.next k.first in
    let more = value_days-IsReplayed prices days k.next k.rest r' k.others in
    record {
      consumed = one.consumed ++ more.consumed;
      split =
          one.split
          ∙ ap (λ l. one.consumed ++ l) more.split
          ∙ sym (append_assoc one.consumed more.consumed r'.remaining);
      replayed = replay-append one.consumed more.consumed _ _ _ one.replayed more.replayed;
      solvent = λ n. rw (← k.whole) (
          All-with_point IsSolvent k.point k.rest (one.solvent n) (more.solvent (one.cash_kept n)));
    }

on_day-OnPoint :
    (P : Date → Type 0) (day : Date) (point : Option PortfolioValuePoint)
    → P day
    → OnPoint (λ p. p.date ≡ day) point
    → OnPoint (λ p. P p.date) point
on_day-OnPoint P day none h k = tt
on_day-OnPoint P day (some p) h k = rw k h

-- The points lie on the days of the loop.
pub value_days-dates :
    (P : Date → Type 0) (prices : Dict Prices) (days : List Date) (r : Replay)
    (points : List PortfolioValuePoint) (r' : Replay)
    → All P days
    → value_days prices days r ≡ ok (points, r')
    → All (λ p. P p.date) points
value_days-dates P prices [] r points r' a h = rw ((value_days-nil prices r points r' h).0) tt
value_days-dates P prices (day ∷ days) r points r' a h =
    let k = value_days-Rounds prices day days r points r' h in
    let one = value_day-IsValued day prices r k.point k.next k.first in
    rw (← k.whole) (
      All-with_point (λ p. P p.date) k.point k.rest (on_day-OnPoint P day k.point a.0 one.on_day)
        (value_days-dates P prices days k.next k.rest r' a.1 k.others))

IsAscending-with_point :
    (day : Date) (point : Option PortfolioValuePoint) (points : List PortfolioValuePoint)
    → OnPoint (λ p. p.date ≡ day) point
    → All (λ p. (leb day p.date ≡ true) × (leb p.date day ≡ false)) points
    → IsAscending point_le points
    → IsAscending point_le (with_point point points)
IsAscending-with_point day none points e below h = h
IsAscending-with_point day (some p) points e below h = (rw e below, h)

-- On ascending days the dates of the points ascend.
pub value_days-IsAscending :
    (prices : Dict Prices) (days : List Date) (r : Replay) (points : List PortfolioValuePoint)
    (r' : Replay)
    → IsAscending leb days
    → value_days prices days r ≡ ok (points, r')
    → IsAscending point_le points
value_days-IsAscending prices [] r points r' a h = rw ((value_days-nil prices r points r' h).0) tt
value_days-IsAscending prices (day ∷ days) r points r' a h =
    let k = value_days-Rounds prices day days r points r' h in
    let one = value_day-IsValued day prices r k.point k.next k.first in
    rw (← k.whole) (
      IsAscending-with_point day k.point k.rest one.on_day
        (value_days-dates (λ e. (leb day e ≡ true) × (leb e day ≡ false)) prices days k.next k.rest
          r' a.0 k.others)
        (value_days-IsAscending prices days k.next k.rest r' a.1 k.others))
