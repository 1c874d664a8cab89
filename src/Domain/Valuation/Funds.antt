-- ===== src/Domain/Valuation/Funds.antt =====
-- The cash of a ledger, said without the loop of domain/valuation.py: what each type of transaction
-- does to it, and that `_apply_transaction` does the same.
use portfolio_analytics_api.Decimal.{lt, sub, mul, add, zero_decimal, Decimal}
use portfolio_analytics_api.Domain.Quantities.{Dict}
use portfolio_analytics_api.Domain.Holdings.{validate_transaction}
use portfolio_analytics_api.Domain.Models.{
  buy, sell, deposit, withdrawal, Transaction, TransactionType,
}
use portfolio_analytics_api.Domain.Valuation.{
  pay_for_buy, asserted, apply_transaction, apply_position_change, Applied, apply_by_type,
}
use portfolio_analytics_api.Common.{
  if◌then◌else◌, Bool-cases, ap, sym, ◌∙◌, ◌≡◌, ◌++◌, Option, List, arith, inl, inr, ◌∷◌, [], some,
  none, refl,
}
use portfolio_analytics_api.Errors.{ok, >>=-eq-ok}

abbrev or_zero : Option Decimal → Decimal
or_zero none = zero_decimal
or_zero (some x) = x

-- The cash before a BUY is paid: a shortfall has been paid in from outside.
abbrev funded : Decimal → Decimal → Decimal
funded required cash = if lt cash required then add cash (sub required cash) else cash

-- What a transaction leaves of the cash.
abbrev pub cash_step : TransactionType → Transaction → Decimal → Decimal
cash_step deposit t cash = add cash (sub (or_zero t.cash_amount) t.fees)
cash_step withdrawal t cash = sub cash (add (or_zero t.cash_amount) t.fees)
cash_step sell t cash = add cash (sub (mul (or_zero t.quantity) (or_zero t.unit_price)) t.fees)
cash_step buy t cash =
    let required = add (mul (or_zero t.quantity) (or_zero t.unit_price)) t.fees in
    sub (funded required cash) required

abbrev pub cash_after : List Transaction → Decimal → Decimal
cash_after [] cash = cash
cash_after (t ∷ ts) cash = cash_after ts (cash_step t.transaction_type t cash)

pub cash_after-append :
    (xs ys : List Transaction) (cash : Decimal)
    → cash_after (xs ++ ys) cash ≡ cash_after ys (cash_after xs cash)
cash_after-append [] ys cash = refl
cash_after-append (x ∷ xs) ys cash = cash_after-append xs ys (cash_step x.transaction_type x cash)

asserted-or_zero : (o : Option Decimal) (x : Decimal) → asserted o ≡ ok x → or_zero o ≡ x
asserted-or_zero none x h = absurd (cc)
asserted-or_zero (some y) x h = ground arith

pay_for_buy-funded :
    (required cash : Decimal) → (pay_for_buy required cash).0 ≡ sub (funded required cash) required
pay_for_buy-funded required cash = elim (Bool-cases (lt cash required)) [
  | inl e ↦ rw e
  | inr e ↦ rw e
]

apply_by_type-cash_step :
    (type : TransactionType) (t : Transaction) (d : Dict Decimal) (cash : Decimal) (a : Applied)
    → apply_by_type type t d cash ≡ ok a
    → a.cash_balance ≡ cash_step type t cash
apply_by_type-cash_step buy t d cash a h =
    let (q, eq, h1) = >>=-eq-ok (asserted t.quantity) _ h in
    let (p, ep, h2) = >>=-eq-ok (asserted t.unit_price) _ h1 in
    let (d', moved, h3) = >>=-eq-ok (apply_position_change buy t d) _ h2 in
    let paid : (pay_for_buy (add (mul q p) t.fees) cash).0 ≡ a.cash_balance = ground arith in
    rw (asserted-or_zero t.quantity q eq, asserted-or_zero t.unit_price p ep)
      (sym paid ∙ pay_for_buy-funded (add (mul q p) t.fees) cash)
apply_by_type-cash_step sell t d cash a h =
    let (q, eq, h1) = >>=-eq-ok (asserted t.quantity) _ h in
    let (p, ep, h2) = >>=-eq-ok (asserted t.unit_price) _ h1 in
    let (d', moved, h3) = >>=-eq-ok (apply_position_change sell t d) _ h2 in
    let paid : add cash (sub (mul q p) t.fees) ≡ a.cash_balance = ground arith in
    rw (asserted-or_zero t.quantity q eq, asserted-or_zero t.unit_price p ep) (sym paid)
apply_by_type-cash_step deposit t d cash a h =
    let (m, em, h1) = >>=-eq-ok (asserted t.cash_amount) _ h in
    let paid : add cash (sub m t.fees) ≡ a.cash_balance = ground arith in
    rw (asserted-or_zero t.cash_amount m em) (sym paid)
apply_by_type-cash_step withdrawal t d cash a h =
    let (m, em, h1) = >>=-eq-ok (asserted t.cash_amount) _ h in
    let paid : sub cash (add m t.fees) ≡ a.cash_balance = ground arith in
    rw (asserted-or_zero t.cash_amount m em) (sym paid)

pub apply_transaction-cash_step :
    (d : Dict Decimal) (cash : Decimal) (t : Transaction) (a : Applied)
    → apply_transaction d cash t ≡ ok a
    → a.cash_balance ≡ cash_step t.transaction_type t cash
unfolding apply_transaction
apply_transaction-cash_step d cash t a h =
    let (_, valid, h1) = >>=-eq-ok (validate_transaction t) _ h in
    let (b, applied, h2) = >>=-eq-ok (apply_by_type t.transaction_type t d cash) _ h1 in
    let same : b ≡ a = ground arith in
    ap (λ x. x.cash_balance) (sym same)
    ∙ apply_by_type-cash_step t.transaction_type t d cash b applied
