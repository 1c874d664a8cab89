-- ===== src/Domain/Valuation.antt =====
-- domain/valuation.py: the symbols that need prices, the checked prices, and the replay of a
-- ledger into one value for each market date.
use portfolio_analytics_api.Common.Sort.{sort_by}
use portfolio_analytics_api.Common.Text.{upper, text_le, text_eq, Text}
use portfolio_analytics_api.Common.{
  ◌++◌, is_some, ◌&&◌, ◌||◌, not, keep, ◌/◌, ◌==◌, leb, ltb, if◌then◌else◌, Option, List, ◌∷◌, [],
  some, none, false, true,
}
pub mod Cash
pub mod Build
pub mod Funds
pub mod Quotes
pub mod Points
pub mod Days
pub mod Dates
pub mod Booked
pub mod Lookahead
pub mod Conclusion
pub mod Outcome
use portfolio_analytics_api.Errors.{
  duplicate_price_date, close_not_valid, symbol_mismatch, invalid_price_series,
  withdrawal_exceeds_cash, fees_exceed_cash, no_prices, sell_exceeds, start_after_end,
  invalid_valuation, assertion_error, Result, ok, err, ◌>>=◌, ◌>>◌, raise_if, for_each,
}
use portfolio_analytics_api.Domain.Models.{
  microseconds_per_day, PriceBar, instant, TransactionType, Transaction, Date, buy, sell, deposit,
  withdrawal,
}
use portfolio_analytics_api.Domain.Quantities.{Dict, lookup, get_or, insert}
use portfolio_analytics_api.Domain.Holdings.{ledger_order_le, validate_transaction, symbol_le}
use portfolio_analytics_api.Decimal.{
  not_above_zero, is_finite, below_zero, nonzero, zero_decimal, add, sub, mul, div, negate, lt,
  Decimal,
}

abbrev pub validate_date_range : Date → Date → Result (Unit {0})
validate_date_range start_date end_date =
    raise_if (ltb end_date start_date) (invalid_valuation start_after_end)

-- `occurred_at.astimezone(UTC).date()`
abbrev pub transaction_date : Transaction → Date
transaction_date t = instant t.occurred_at / microseconds_per_day

unfoldable pub ordered_transactions : List Transaction → Date → Result (List Transaction)
ordered_transactions transactions end_date = do
  for_each validate_transaction transactions
  ok (sort_by ledger_order_le (keep (λ t. leb (transaction_date t) end_date) transactions))

-- The body of `_apply_position_change` once its `assert`s have passed.
abbrev pub traded_position : TransactionType → Text → Decimal → Dict Decimal → Result (Dict Decimal)
traded_position buy symbol quantity positions =
    ok (insert symbol (add (get_or zero_decimal symbol positions) quantity) positions)
traded_position _ symbol quantity positions =
    let updated = sub (get_or zero_decimal symbol positions) quantity in
    if below_zero updated
    then err (invalid_valuation (sell_exceeds symbol))
    else ok (insert symbol updated positions)

abbrev pub asserted_position :
    TransactionType → Option Text → Option Decimal → Dict Decimal → Result (Dict Decimal)
asserted_position type (some symbol) (some quantity) positions =
    traded_position type symbol quantity positions
asserted_position type none quantity positions = err assertion_error
asserted_position type (some symbol) none positions = err assertion_error

unfoldable pub apply_position_change :
    TransactionType → Transaction → Dict Decimal → Result (Dict Decimal)
apply_position_change deposit t positions = ok positions
apply_position_change withdrawal t positions = ok positions
apply_position_change buy t positions = asserted_position buy t.symbol t.quantity positions
apply_position_change sell t positions = asserted_position sell t.symbol t.quantity positions

-- The first loop of `required_price_symbols`, over the transactions before `start_date`.
unfoldable pub positions_before : Date → List Transaction → Dict Decimal → Result (Dict Decimal)
unfolding apply_position_change
positions_before start_date [] positions = ok positions
positions_before start_date (t ∷ ts) positions = elim (leb start_date (transaction_date t)) [
  | true ↦ positions_before start_date ts positions
  | false ↦ do
    changed ← apply_position_change t.transaction_type t positions
    positions_before start_date ts changed
]

-- A set of symbols: a list in which none stands twice.
abbrev pub add_symbol : Text → List Text → List Text
add_symbol s [] = s ∷ []
add_symbol s (x ∷ xs) = if text_eq x s then x ∷ xs else x ∷ add_symbol s xs

abbrev pub add_held : Dict Decimal → List Text → List Text
add_held [] symbols = symbols
add_held ((s, q) ∷ d) symbols = add_held d (if nonzero q then add_symbol s symbols else symbols)

abbrev pub add_optional : Option Text → List Text → List Text
add_optional none symbols = symbols
add_optional (some s) symbols = add_symbol s symbols

abbrev pub add_traded : Date → List Transaction → List Text → List Text
add_traded start_date [] symbols = symbols
add_traded start_date (t ∷ ts) symbols =
    add_traded start_date ts
      (if leb start_date (transaction_date t) then add_optional t.symbol symbols else symbols)

unfoldable pub required_price_symbols : List Transaction → Date → Date → Result (List Text)
unfolding ordered_transactions positions_before
required_price_symbols transactions start_date end_date = do
  validate_date_range start_date end_date
  ordered ← ordered_transactions transactions end_date
  positions ← positions_before start_date ordered []
  ok (sort_by text_le (add_traded start_date ordered (add_held positions [])))

-- `dict[date, Decimal]`
abbrev pub Prices : Type 0
Prices = List (Date × Decimal)

abbrev pub price_on : Date → Prices → Option Decimal
price_on d [] = none
price_on d ((e, p) ∷ prices) = if e == d then some p else price_on d prices

-- The loop of `_validated_prices` over the bars of one symbol.
unfoldable pub symbol_prices : Text → Date → Date → List PriceBar → Prices → Result Prices
symbol_prices symbol start_date end_date [] prices = ok prices
symbol_prices symbol start_date end_date (bar ∷ bars) prices =
    let rest = symbol_prices symbol start_date end_date bars in
    if not (text_eq (upper bar.symbol) symbol)
    then err (invalid_price_series (symbol_mismatch bar.symbol symbol))
    else if not (is_finite bar.adjusted_close) || not_above_zero bar.adjusted_close
    then err (invalid_price_series (close_not_valid symbol))
    else if not (leb start_date bar.date && leb bar.date end_date)
    then rest prices
    else if is_some (price_on bar.date prices)
    then err (invalid_price_series (duplicate_price_date symbol bar.date))
    else rest (prices ++ (bar.date, bar.adjusted_close) ∷ [])

-- `{symbol.upper(): tuple(price_bars) for …}`
abbrev pub normalized_input : Dict (List PriceBar) → Dict (List PriceBar) → Dict (List PriceBar)
normalized_input [] d = d
normalized_input ((symbol, bars) ∷ given) d = normalized_input given (insert (upper symbol) bars d)

abbrev pub nonempty_prices : Text → Prices → Result Prices
nonempty_prices symbol [] = err (invalid_valuation (no_prices symbol))
nonempty_prices symbol (x ∷ xs) = ok (x ∷ xs)

abbrev pub validated_from : Date → Date → Dict (List PriceBar) → List Text → Result (Dict Prices)
validated_from start_date end_date given [] = ok []
validated_from start_date end_date given (symbol ∷ symbols) = do
  found ← symbol_prices symbol start_date end_date (get_or [] symbol given) []
  prices ← nonempty_prices symbol found
  rest ← validated_from start_date end_date given symbols
  ok ((symbol, prices) ∷ rest)

unfoldable pub validated_prices :
    List Text → Dict (List PriceBar) → Date → Date → Result (Dict Prices)
unfolding symbol_prices
validated_prices symbols bars start_date end_date =
    validated_from start_date end_date (normalized_input bars []) symbols

-- The cash after a transaction that has been validated, the external flow, and the positions.
pub record Applied : Type 0 where
  pub positions : Dict Decimal
  pub cash_balance : Decimal
  pub external_flow : Decimal

abbrev pub require_cash : Applied → Result Applied
require_cash a =
    if below_zero a.cash_balance then err (invalid_valuation fees_exceed_cash) else ok a

abbrev pub apply_deposit : Decimal → Decimal → Dict Decimal → Decimal → Applied
apply_deposit amount fees positions cash = record {
  positions = positions;
  cash_balance = add cash (sub amount fees);
  external_flow = amount;
}

abbrev pub apply_withdrawal : Decimal → Decimal → Dict Decimal → Decimal → Result Applied
apply_withdrawal amount fees positions cash =
    let required = add amount fees in
    if lt cash required
    then err (invalid_valuation withdrawal_exceeds_cash)
    else ok (record {
      positions = positions;
      cash_balance = sub cash required;
      external_flow = negate amount;
    })

-- `cash_balance` and `external_flow` of a BUY: a shortfall is contributed from outside.
abbrev pub pay_for_buy : Decimal → Decimal → Decimal × Decimal
pay_for_buy required cash =
    let contribution = sub required cash in
    if lt cash required
    then (sub (add cash contribution) required, contribution)
    else (sub cash required, zero_decimal)

abbrev pub apply_buy : Transaction → Decimal → Decimal → Dict Decimal → Decimal → Result Applied
apply_buy t quantity unit_price positions cash = do
  let required = add (mul quantity unit_price) t.fees
  let (left, flow) = pay_for_buy required cash
  changed ← apply_position_change buy t positions
  ok (record { positions = changed; cash_balance = left; external_flow = flow })

abbrev pub apply_sell : Transaction → Decimal → Decimal → Dict Decimal → Decimal → Result Applied
apply_sell t quantity unit_price positions cash = do
  changed ← apply_position_change sell t positions
  ok (record {
    positions = changed;
    cash_balance = add cash (sub (mul quantity unit_price) t.fees);
    external_flow = zero_decimal;
  })

-- `assert value is not None`
abbrev pub asserted {ℓ} : {A : Type ℓ} → Option A → Result A
asserted none = err assertion_error
asserted (some a) = ok a

abbrev pub apply_by_type : TransactionType → Transaction → Dict Decimal → Decimal → Result Applied
apply_by_type deposit t positions cash = do
  amount ← asserted t.cash_amount
  ok (apply_deposit amount t.fees positions cash)
apply_by_type withdrawal t positions cash = do
  amount ← asserted t.cash_amount
  apply_withdrawal amount t.fees positions cash
apply_by_type buy t positions cash = do
  quantity ← asserted t.quantity
  unit_price ← asserted t.unit_price
  apply_buy t quantity unit_price positions cash
apply_by_type sell t positions cash = do
  quantity ← asserted t.quantity
  unit_price ← asserted t.unit_price
  apply_sell t quantity unit_price positions cash

unfoldable pub apply_transaction : Dict Decimal → Decimal → Transaction → Result Applied
unfolding apply_position_change
apply_transaction positions cash t = do
  validate_transaction t
  applied ← apply_by_type t.transaction_type t positions cash
  require_cash applied
