-- ===== src/Domain/Holdings.antt =====
-- domain/holdings.py: the rules that a transaction has to meet, the order of the ledger, and the
-- positions that replaying it gives.
pub mod Validation
pub mod Replay
pub mod Positions
pub mod Resorting
use portfolio_analytics_api.Common.{
  ℕ, ltb, leb, ◌==◌, if◌then◌else◌, is_some, keep, map, Bool, true, false, not, ◌&&◌, ◌||◌, Option,
  none, some, List, [], ◌∷◌,
}
use portfolio_analytics_api.Common.Text.{Text, strip, upper, is_blank, text_eq, text_le}
use portfolio_analytics_api.Common.Sort.{sort_by}
use portfolio_analytics_api.Decimal.{
  Decimal, add, sub, is_finite, below_zero, not_above_zero, nonzero, zero_decimal,
}
use portfolio_analytics_api.Errors.{
  TransactionFault, external_id_blank, occurred_at_naive, created_at_naive, symbol_required,
  symbol_not_normalized, trade_with_cash, cash_with_trade, fees_not_valid, quantity_not_valid,
  unit_price_not_valid, cash_amount_not_valid, sell_exceeds_position, invalid_transaction,
  assertion_error, Result, ok, err, ◌>>=◌, ◌>>◌, raise_if, for_each,
}
use portfolio_analytics_api.Domain.Models.{
  TransactionType, buy, sell, deposit, withdrawal, DateTime, is_naive, instant, Transaction,
  Position,
}
use portfolio_analytics_api.Domain.Quantities.{Dict, get_or, insert}

abbrev pub require_positive_finite : Option Decimal → TransactionFault → Result (Unit {0})
require_positive_finite none fault = err (invalid_transaction fault)
require_positive_finite (some value) fault =
    raise_if (not (is_finite value) || not_above_zero value) (invalid_transaction fault)

abbrev pub require_non_negative_finite : Decimal → TransactionFault → Result (Unit {0})
require_non_negative_finite value fault =
    raise_if (not (is_finite value) || below_zero value) (invalid_transaction fault)

abbrev pub created_naive : Option DateTime → Bool
created_naive none = false
created_naive (some value) = is_naive value

abbrev pub symbol_missing : Option Text → Bool
symbol_missing none = true
symbol_missing (some symbol) = is_blank symbol

-- `symbol != symbol.strip().upper()`
abbrev pub symbol_differs : Option Text → Bool
symbol_differs none = false
symbol_differs (some symbol) = not (text_eq symbol (upper (strip symbol)))

abbrev pub validate_trade : Transaction → Result (Unit {0})
validate_trade t = do
  raise_if (symbol_missing t.symbol) (invalid_transaction symbol_required)
  raise_if (symbol_differs t.symbol) (invalid_transaction symbol_not_normalized)
  require_positive_finite t.quantity quantity_not_valid
  require_positive_finite t.unit_price unit_price_not_valid
  raise_if (is_some t.cash_amount) (invalid_transaction trade_with_cash)

abbrev pub validate_cash : Transaction → Result (Unit {0})
validate_cash t = do
  raise_if (is_some t.symbol || is_some t.quantity || is_some t.unit_price)
      (invalid_transaction cash_with_trade)
  require_positive_finite t.cash_amount cash_amount_not_valid

-- The branches on `transaction_type`; the last `raise` of the source has no type left.
abbrev pub validate_payload : TransactionType → Transaction → Result (Unit {0})
validate_payload buy t = validate_trade t
validate_payload sell t = validate_trade t
validate_payload deposit t = validate_cash t
validate_payload withdrawal t = validate_cash t

unfoldable pub validate_transaction : Transaction → Result (Unit {0})
validate_transaction t = do
  raise_if (is_blank t.external_id) (invalid_transaction external_id_blank)
  raise_if (is_naive t.occurred_at) (invalid_transaction occurred_at_naive)
  raise_if (created_naive t.created_at) (invalid_transaction created_at_naive)
  require_non_negative_finite t.fees fees_not_valid
  validate_payload t.transaction_type t

-- `transaction.created_at or transaction.occurred_at.astimezone(UTC)`
abbrev pub created_instant : Option DateTime → DateTime → ℕ
created_instant none occurred = instant occurred
created_instant (some created) occurred = instant created

-- `_ledger_order(a) <= _ledger_order(b)`: occurred, created, identifier.
abbrev pub ledger_order_le : Transaction → Transaction → Bool
ledger_order_le a b =
    let s = instant a.occurred_at in
    let t = instant b.occurred_at in
    let u = created_instant a.created_at a.occurred_at in
    let v = created_instant b.created_at b.occurred_at in
    if s == t then (if u == v then leb a.id b.id else ltb u v) else ltb s t

-- The rest of the loop's body once the two `assert`s have passed.
abbrev pub trade_position : TransactionType → Text → Decimal → Dict Decimal → Result (Dict Decimal)
trade_position buy symbol quantity quantities =
    ok (insert symbol (add (get_or zero_decimal symbol quantities) quantity) quantities)
trade_position _ symbol quantity quantities =
    let updated = sub (get_or zero_decimal symbol quantities) quantity in
    if below_zero updated
    then err (invalid_transaction (sell_exceeds_position symbol))
    else ok (insert symbol updated quantities)

abbrev pub asserted_trade :
    TransactionType → Option Text → Option Decimal → Dict Decimal → Result (Dict Decimal)
asserted_trade type (some symbol) (some quantity) quantities =
    trade_position type symbol quantity quantities
asserted_trade type none quantity quantities = err assertion_error
asserted_trade type (some symbol) none quantities = err assertion_error

-- The body of the second loop of `derive_positions`.
unfoldable pub ledger_step : TransactionType → Transaction → Dict Decimal → Result (Dict Decimal)
ledger_step deposit t quantities = ok quantities
ledger_step withdrawal t quantities = ok quantities
ledger_step buy t quantities = asserted_trade buy t.symbol t.quantity quantities
ledger_step sell t quantities = asserted_trade sell t.symbol t.quantity quantities

unfoldable pub replay : List Transaction → Dict Decimal → Result (Dict Decimal)
unfolding ledger_step
replay [] quantities = ok quantities
replay (t ∷ ts) quantities = ledger_step t.transaction_type t quantities >>= replay ts

abbrev pub symbol_le {ℓ} : {V : Type ℓ} → Text × V → Text × V → Bool
symbol_le a b = text_le a.0 b.0

abbrev pub to_position : Text × Decimal → Position
to_position (symbol, quantity) = record { symbol = symbol; quantity = quantity }

-- `tuple(Position(…) for symbol, quantity in sorted(quantities.items()) if quantity != 0)`
unfoldable pub open_positions : Dict Decimal → List Position
open_positions quantities =
    map to_position (keep (λ item. nonzero item.1) (sort_by symbol_le quantities))

unfoldable pub derive_positions : List Transaction → Result (List Position)
unfolding replay open_positions
derive_positions transactions = do
  for_each validate_transaction transactions
  quantities ← replay (sort_by ledger_order_le transactions) []
  ok (open_positions quantities)
