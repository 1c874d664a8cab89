-- ===== src/Domain/Valuation/Cash.antt =====
-- One transaction in the valuation: the cash never falls below zero, and the positions change as
-- they do in holdings.py.
use mathlib.Core.Path.{subst}
use portfolio_analytics_api.Domain.Holdings.Validation.{
  IsPayload, IsCashFlow, IsTrade, validate_transaction_iff, IsWellFormed,
}
use portfolio_analytics_api.Decimal.Sign.{
  add-IsFinite, mul-IsFinite, sub-IsFinite, IsNonNegative, IsFinite,
}
use portfolio_analytics_api.Decimal.{mul, add, below_zero, Decimal}
use portfolio_analytics_api.Domain.Quantities.{Dict}
use portfolio_analytics_api.Common.Text.{Text}
use portfolio_analytics_api.Common.{false, ◌∙◌, sym, ◌≡◌, Option, arith, some, none, refl}
use portfolio_analytics_api.Errors.{
  sell_exceeds, invalid_valuation, sell_exceeds_position, invalid_transaction, Error, Result, ok,
  err, >>=-eq-ok,
}
use portfolio_analytics_api.Domain.Models.{
  buy, sell, deposit, withdrawal, Transaction, TransactionType,
}
use portfolio_analytics_api.Domain.Valuation.{
  pay_for_buy, asserted, asserted_position, traded_position, apply_transaction,
  apply_position_change, Applied, apply_by_type,
}
use portfolio_analytics_api.Domain.Holdings.{
  asserted_trade, trade_position, ledger_step, validate_transaction,
}

-- The error that valuation.py raises where holdings.py raises another.
abbrev pub relabel : Error → Error
relabel (invalid_transaction (sell_exceeds_position s)) = invalid_valuation (sell_exceeds s)
relabel e = e

abbrev pub relabelled {ℓ} : {A : Type ℓ} → Result A → Result A
relabelled (ok a) = ok a
relabelled (err e) = err (relabel e)

traded_position_eq :
    (s : Text) (q : Decimal) (d : Dict Decimal)
    → traded_position sell s q d ≡ relabelled (trade_position sell s q d)
traded_position_eq s q d = ground arith

asserted_position_eq :
    (type : TransactionType) (s : Option Text) (q : Option Decimal) (d : Dict Decimal)
    → ((x : Text) (y : Decimal)
        → traded_position type x y d ≡ relabelled (trade_position type x y d))
    → asserted_position type s q d ≡ relabelled (asserted_trade type s q d)
asserted_position_eq type none q d h = refl
asserted_position_eq type (some s) none d h = refl
asserted_position_eq type (some s) (some q) d h = h s q

-- The two modules move positions alike, on every branch; only the error of an excessive SELL has
-- another class.
pub apply_position_change-ledger_step :
    (type : TransactionType) (t : Transaction) (d : Dict Decimal)
    → apply_position_change type t d ≡ relabelled (ledger_step type t d)
unfolding apply_position_change ledger_step
apply_position_change-ledger_step buy t d =
    asserted_position_eq buy t.symbol t.quantity d (λ s q. refl)
apply_position_change-ledger_step sell t d =
    asserted_position_eq sell t.symbol t.quantity d (λ s q. traded_position_eq s q d)
apply_position_change-ledger_step deposit t d = refl
apply_position_change-ledger_step withdrawal t d = refl

relabelled-ok {ℓ} : {A : Type ℓ} (m : Result A) (a : A) → relabelled m ≡ ok a → m ≡ ok a
relabelled-ok (ok b) a h = h
relabelled-ok (err e) a h = absurd (cc)

changed_positions :
    (type : TransactionType) (t : Transaction) (d d' : Dict Decimal)
    → apply_position_change type t d ≡ ok d'
    → ledger_step type t d ≡ ok d'
changed_positions type t d d' h =
    relabelled-ok (ledger_step type t d) d' (sym (apply_position_change-ledger_step type t d) ∙ h)

applied_positions :
    (type : TransactionType) (t : Transaction) (d : Dict Decimal) (cash : Decimal) (a : Applied)
    → apply_by_type type t d cash ≡ ok a
    → ledger_step type t d ≡ ok a.positions
unfolding ledger_step
applied_positions buy t d cash a h =
    let (q, _, h1) = >>=-eq-ok (asserted t.quantity) _ h in
    let (p, _, h2) = >>=-eq-ok (asserted t.unit_price) _ h1 in
    let (d', moved, h3) = >>=-eq-ok (apply_position_change buy t d) _ h2 in
    changed_positions buy t d d' moved ∙ ground (arith)
applied_positions sell t d cash a h =
    let (q, _, h1) = >>=-eq-ok (asserted t.quantity) _ h in
    let (p, _, h2) = >>=-eq-ok (asserted t.unit_price) _ h1 in
    let (d', moved, h3) = >>=-eq-ok (apply_position_change sell t d) _ h2 in
    changed_positions sell t d d' moved ∙ ground (arith)
applied_positions deposit t d cash a h = ground arith
applied_positions withdrawal t d cash a h = ground arith

pay_for_buy-IsFinite :
    (required cash : Decimal)
    → IsFinite required
    → IsFinite cash
    → IsFinite (pay_for_buy required cash).0
pay_for_buy-IsFinite required cash f g =
    let more = sub-IsFinite required cash f g in
    let direct = sub-IsFinite cash required g f in
    let topped = sub-IsFinite _ required (add-IsFinite cash _ g more) f in ground arith

module _ (t : Transaction) (d : Dict Decimal) (cash : Decimal) (a : Applied) (f : IsFinite t.fees)
    (g : IsFinite cash) where
  bought_cash : IsTrade t → apply_by_type buy t d cash ≡ ok a → IsFinite a.cash_balance
  bought_cash p h =
      let (q, eq, h1) = >>=-eq-ok (asserted t.quantity) _ h in
      let (u, eu, h2) = >>=-eq-ok (asserted t.unit_price) _ h1 in
      let (d', moved, h3) = >>=-eq-ok (apply_position_change buy t d) _ h2 in
      let same_q : p.quantity ≡ q = ground (arith, p.has_quantity) in
      let same_u : p.unit_price ≡ u = ground (arith, p.has_unit_price) in
      let price =
        mul-IsFinite q u (subst IsFinite same_q p.positive_quantity.0)
          (subst IsFinite same_u p.positive_price.0) in
      let left = pay_for_buy-IsFinite (add (mul q u) t.fees) cash (add-IsFinite _ _ price f) g in
      ground arith

  sold_cash : IsTrade t → apply_by_type sell t d cash ≡ ok a → IsFinite a.cash_balance
  sold_cash p h =
      let (q, eq, h1) = >>=-eq-ok (asserted t.quantity) _ h in
      let (u, eu, h2) = >>=-eq-ok (asserted t.unit_price) _ h1 in
      let (d', moved, h3) = >>=-eq-ok (apply_position_change sell t d) _ h2 in
      let same_q : p.quantity ≡ q = ground (arith, p.has_quantity) in
      let same_u : p.unit_price ≡ u = ground (arith, p.has_unit_price) in
      let price =
        mul-IsFinite q u (subst IsFinite same_q p.positive_quantity.0)
          (subst IsFinite same_u p.positive_price.0) in
      let left = add-IsFinite cash _ g (sub-IsFinite (mul q u) t.fees price f) in ground arith

  deposited_cash : IsCashFlow t → apply_by_type deposit t d cash ≡ ok a → IsFinite a.cash_balance
  deposited_cash p h =
      let left = add-IsFinite cash _ g (sub-IsFinite p.amount t.fees p.positive_amount.0 f) in
      ground (arith, p.has_amount)

  withdrawn_cash : IsCashFlow t → apply_by_type withdrawal t d cash ≡ ok a → IsFinite a.cash_balance
  withdrawn_cash p h =
      let left = sub-IsFinite cash _ g (add-IsFinite p.amount t.fees p.positive_amount.0 f) in
      ground (arith, p.has_amount)

  applied_cash :
      (type : TransactionType)
      → IsPayload type t
      → apply_by_type type t d cash ≡ ok a
      → IsFinite a.cash_balance
  applied_cash buy p h = bought_cash p h
  applied_cash sell p h = sold_cash p h
  applied_cash deposit p h = deposited_cash p h
  applied_cash withdrawal p h = withdrawn_cash p h

-- A transaction that the valuation applies is well formed, leaves the cash at zero or more, and
-- moves the positions as the replay of holdings.py does.
pub record IsApplied (d : Dict Decimal) (cash : Decimal) (t : Transaction) (a : Applied)
    : Type 0 where
  pub well_formed : IsWellFormed t
  pub cash_kept : IsFinite cash → IsNonNegative a.cash_balance
  pub positions_moved : ledger_step t.transaction_type t d ≡ ok a.positions

pub apply_transaction-IsApplied :
    (d : Dict Decimal) (cash : Decimal) (t : Transaction) (a : Applied)
    → apply_transaction d cash t ≡ ok a
    → IsApplied d cash t a
unfolding apply_transaction
apply_transaction-IsApplied d cash t a h =
    let (_, valid, h1) = >>=-eq-ok (validate_transaction t) _ h in
    let (b, applied, h2) = >>=-eq-ok (apply_by_type t.transaction_type t d cash) _ h1 in
    let w = (validate_transaction_iff t).0 valid in
    let same : b ≡ a = ground arith in
    let kept : below_zero b.cash_balance ≡ false = ground arith in
    rw (← same) (record {
      well_formed = w;
      cash_kept = λ g.
          (applied_cash t d cash b w.fees_valid.0 g t.transaction_type w.payload applied, kept);
      positions_moved = applied_positions t.transaction_type t d cash b applied;
    })
