-- ===== src/Domain/Valuation/Booked.antt =====
-- The whole loop of the valuation against the ledger and the prices: what has been applied by the
-- end of each day, the cash and the positions that it leaves, and the figures of each point.
use mathlib.Core.List.{append_assoc}
use mathlib.Core.Path.{subst}
use portfolio_analytics_api.Domain.Valuation.Days.{
  All-with_point, replay-append, value_days-Rounds, value_days-nil,
}
use portfolio_analytics_api.Domain.Valuation.Funds.{cash_after, cash_after-append}
use portfolio_analytics_api.Domain.Valuation.Quotes.{last_quote}
use portfolio_analytics_api.Domain.Valuation.Points.{
  IsValued, IsWorth, OnPoint, WaitsAfter, value_day-IsValued,
}
use portfolio_analytics_api.Domain.Valuation.{Prices, transaction_date}
use portfolio_analytics_api.Domain.Valuation.Build.{Replay, value_days}
use portfolio_analytics_api.Domain.Holdings.{replay}
use portfolio_analytics_api.Domain.Quantities.{Dict, lookup}
use portfolio_analytics_api.Domain.Models.{Transaction, Date, PortfolioValuePoint}
use portfolio_analytics_api.Common.Sort.{IsAscending}
use portfolio_analytics_api.Common.Text.{Text}
use portfolio_analytics_api.Common.{
  All-append_right, All-append, All-imp, last, leb, sym, ap, ◌∙◌, ◌++◌, ◌≤◌, All, ◌≡◌, Option, List,
  arith, ◌∷◌, [], some, none, true, false,
}
use portfolio_analytics_api.Errors.{ok}

-- The state `r'` at the end of a day, after the days `seen`, against the state `r` before them: the
-- transactions that are applied are dated up to the day and the next one is not, the positions are
-- those of holdings.py, the cash is that of the ledger, and each price is the last one of the days
-- seen.
pub record IsBooked (prices : Dict Prices) (r : Replay) (day : Date) (seen : List Date)
    (r' : Replay) : Type 0 where
  pub applied : List Transaction
  pub split : r.remaining ≡ applied ++ r'.remaining
  pub dated : All (λ t. transaction_date t ≤ day) applied
  pub waiting : WaitsAfter day r'.remaining
  pub replayed : replay applied r.positions ≡ ok r'.positions
  pub paid : r'.cash_balance ≡ cash_after applied r.cash_balance
  pub priced :
      (symbol : Text)
      → lookup symbol r'.latest_prices
        ≡ last_quote symbol prices seen (lookup symbol r.latest_prices)

IsBooked-one :
    (prices : Dict Prices) (r : Replay) (day : Date) (point : Option PortfolioValuePoint)
    (r' : Replay)
    → IsValued day prices r point r'
    → IsBooked prices r day (day ∷ []) r'
IsBooked-one prices r day point r' one = record {
  applied = one.consumed;
  split = one.split;
  dated = one.dated;
  waiting = one.waiting;
  replayed = one.replayed;
  paid = one.paid;
  priced = one.priced;
}

-- One day, and then those up to a later one.
IsBooked-then :
    (prices : Dict Prices) (r : Replay) (day : Date) (m : Replay) (end : Date) (seen : List Date)
    (r' : Replay)
    → IsBooked prices r day (day ∷ []) m
    → day ≤ end
    → IsBooked prices m end seen r'
    → IsBooked prices r end (day ∷ seen) r'
unfolding replay
IsBooked-then prices r day m end seen r' one h more = record {
  applied = one.applied ++ more.applied;
  split =
      one.split
      ∙ ap (λ l. one.applied ++ l) more.split
      ∙ sym (append_assoc one.applied more.applied r'.remaining);
  dated =
      All-append _ one.applied more.applied
        (All-imp (λ t. transaction_date t ≤ day) _ (λ t k. omega arith) one.applied one.dated)
        more.dated;
  waiting = more.waiting;
  replayed = replay-append one.applied more.applied _ _ _ one.replayed more.replayed;
  paid =
      more.paid
      ∙ ap (cash_after more.applied) one.paid
      ∙ sym (cash_after-append one.applied more.applied r.cash_balance);
  priced = λ symbol. more.priced symbol ∙ ap (last_quote symbol prices seen) (one.priced symbol);
}

-- A point lies on one of the days, and its figures are those of the state at the end of that day.
pub record IsPointOf (prices : Dict Prices) (days : List Date) (r : Replay)
    (p : PortfolioValuePoint) : Type 0 where
  pub before : List Date
  pub after : List Date
  pub place : days ≡ before ++ p.date ∷ after
  pub state : Replay
  pub booked : IsBooked prices r p.date (before ++ p.date ∷ []) state
  pub worth : IsWorth state p

OnPoint-IsPointOf :
    (prices : Dict Prices) (day : Date) (days : List Date) (r : Replay)
    (point : Option PortfolioValuePoint) (r' : Replay)
    → IsBooked prices r day (day ∷ []) r'
    → OnPoint (λ p. p.date ≡ day) point
    → OnPoint (IsWorth r') point
    → OnPoint (IsPointOf prices (day ∷ days) r) point
OnPoint-IsPointOf prices day days r none r' b on w = tt
OnPoint-IsPointOf prices day days r (some p) r' b on w = record {
  before = [];
  after = days;
  place = ap (λ d. d ∷ days) (sym on);
  state = r';
  booked = subst (λ d. IsBooked prices r d (d ∷ []) r') (sym on) b;
  worth = w;
}

IsPointOf-later :
    (prices : Dict Prices) (day : Date) (days : List Date) (r m : Replay)
    → All (λ e. (leb day e ≡ true) × (leb e day ≡ false)) days
    → IsBooked prices r day (day ∷ []) m
    → (p : PortfolioValuePoint) → IsPointOf prices days m p
    → IsPointOf prices (day ∷ days) r p
IsPointOf-later prices day days r m ahead one p k =
    let below = All-append_right _ k.before (p.date ∷ k.after) (subst (All _) k.place ahead) in
    record {
      before = day ∷ k.before;
      after = k.after;
      place = ap (◌∷◌ day) k.place;
      state = k.state;
      booked = IsBooked-then prices r day m p.date _ k.state one (ground (arith, below.0)) k.booked;
      worth = k.worth;
    }

pub value_days-IsPointOf :
    (prices : Dict Prices) (days : List Date) (r : Replay) (points : List PortfolioValuePoint)
    (r' : Replay)
    → IsAscending leb days
    → value_days prices days r ≡ ok (points, r')
    → All (IsPointOf prices days r) points
value_days-IsPointOf prices [] r points r' a h = rw ((value_days-nil prices r points r' h).0) tt
value_days-IsPointOf prices (day ∷ days) r points r' a h =
    let k = value_days-Rounds prices day days r points r' h in
    let one = value_day-IsValued day prices r k.point k.next k.first in
    let b = IsBooked-one prices r day k.point k.next one in
    let more = value_days-IsPointOf prices days k.next k.rest r' a.1 k.others in
    rw (← k.whole) (
      All-with_point (IsPointOf prices (day ∷ days) r) k.point k.rest
        (OnPoint-IsPointOf prices day days r k.point k.next b one.on_day one.worth)
        (All-imp _ _ (IsPointOf-later prices day days r k.next a.0 b) k.rest more))

All-last {κ} : (P : Date → Type κ) (d : Date) (ds : List Date) → All P (d ∷ ds) → P (last d ds)
All-last P d [] h = h.0
All-last P d (e ∷ ds) h = All-last P e ds h.1

-- The state after the last day.
pub value_days-IsBooked :
    (prices : Dict Prices) (day : Date) (days : List Date) (r : Replay)
    (points : List PortfolioValuePoint) (r' : Replay)
    → IsAscending leb (day ∷ days)
    → value_days prices (day ∷ days) r ≡ ok (points, r')
    → IsBooked prices r (last day days) (day ∷ days) r'
value_days-IsBooked prices day [] r points r' a h =
    let k = value_days-Rounds prices day [] r points r' h in
    let one = value_day-IsValued day prices r k.point k.next k.first in
    let same = (value_days-nil prices k.next k.rest r' k.others).1 in
    subst (IsBooked prices r day (day ∷ [])) same (IsBooked-one prices r day k.point k.next one)
value_days-IsBooked prices day (e ∷ days) r points r' a h =
    let k = value_days-Rounds prices day (e ∷ days) r points r' h in
    let one = value_day-IsValued day prices r k.point k.next k.first in
    let more = value_days-IsBooked prices e days k.next k.rest r' a.1 k.others in
    let ahead = All-last (λ d. (leb day d ≡ true) × (leb d day ≡ false)) e days a.0 in
    IsBooked-then prices r day k.next (last e days) _ r'
      (IsBooked-one prices r day k.point k.next one) (ground (arith, ahead.0)) more
