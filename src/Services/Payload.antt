-- ===== src/Services/Payload.antt =====
-- application/services.py: the payload of a new transaction, its normal form and the comparison
-- that recognises a replay.
use portfolio_analytics_api.Common.{
  ℕ, ◌==◌, if◌then◌else◌, Bool, true, false, not, ◌&&◌, Option, none, some,
}
use portfolio_analytics_api.Common.Int.{pos}
use portfolio_analytics_api.Common.Text.{Text, text, strip, upper, text_eq}
use portfolio_analytics_api.Decimal.{Decimal, finite, quantize, is_finite, eq, nonzero}
use portfolio_analytics_api.Errors.{
  invalid_transaction, exceeds_precision, exceeds_scale, Result, ok, err, ◌>>=◌,
}
use portfolio_analytics_api.Domain.Models.{
  Uuid, TransactionType, buy, sell, deposit, withdrawal, DateTime, aware, naive, Transaction,
}

pub record NewTransaction : Type 0 where
  pub external_id : Text
  pub transaction_type : TransactionType
  pub occurred_at : DateTime
  pub symbol : Option Text
  pub quantity : Option Decimal
  pub unit_price : Option Decimal
  pub cash_amount : Option Decimal
  pub fees : Decimal

-- `_QUANTITY_QUANTUM` and `_MONEY_QUANTUM` by their numbers of decimal places.
abbrev pub quantity_places : ℕ
quantity_places = 12

abbrev pub money_places : ℕ
money_places = 8

abbrev pub check_scale : Text → Decimal → Option Decimal → Result Decimal
check_scale field value none = err (invalid_transaction (exceeds_precision field))
check_scale field value (some normalized) =
    if not (eq normalized value)
    then err (invalid_transaction (exceeds_scale field))
    else ok normalized

-- `_quantize_exact` on a value that is there.
unfoldable pub quantize_exact : Decimal → ℕ → Text → Result Decimal
quantize_exact value places field =
    if not (is_finite value) then ok value else check_scale field value (quantize value places)

abbrev pub quantize_optional : Option Decimal → ℕ → Text → Result (Option Decimal)
quantize_optional none places field = ok none
quantize_optional (some value) places field = do
  normalized ← quantize_exact value places field
  ok (some normalized)

-- `fees or Decimal("0.00000000")`
abbrev pub or_zero_fees : Decimal → Decimal
or_zero_fees fees = if nonzero fees then fees else finite (pos 0) 8

abbrev pub normalize_symbol : Option Text → Option Text
normalize_symbol none = none
normalize_symbol (some symbol) = some (upper (strip symbol))

unfoldable pub build_transaction : Uuid → NewTransaction → Uuid → DateTime → Result Transaction
build_transaction portfolio_id new transaction_id created_at = do
  quantity ← quantize_optional new.quantity quantity_places (text "quantity")
  unit_price ← quantize_optional new.unit_price money_places (text "unit_price")
  cash_amount ← quantize_optional new.cash_amount money_places (text "cash_amount")
  fees ← quantize_exact new.fees money_places (text "fees")
  ok (record {
    portfolio_id = portfolio_id;
    external_id = strip new.external_id;
    transaction_type = new.transaction_type;
    occurred_at = new.occurred_at;
    symbol = normalize_symbol new.symbol;
    quantity = quantity;
    unit_price = unit_price;
    cash_amount = cash_amount;
    fees = or_zero_fees fees;
    id = transaction_id;
    created_at = some created_at;
  })

abbrev pub type_eq : TransactionType → TransactionType → Bool
type_eq buy buy = true
type_eq sell sell = true
type_eq deposit deposit = true
type_eq withdrawal withdrawal = true
type_eq _ _ = false

-- Aware times are equal when their instants are; an aware and a naive time never are.
abbrev pub time_eq : DateTime → DateTime → Bool
time_eq (aware a) (aware b) = a == b
time_eq (naive a) (naive b) = a == b
time_eq _ _ = false

abbrev pub optional_eq {ℓ} : {A : Type ℓ} → (A → A → Bool) → Option A → Option A → Bool
optional_eq test none none = true
optional_eq test (some a) (some b) = test a b
optional_eq test _ _ = false

-- The comparison of the two tuples, field by field.
unfoldable pub same_transaction_payload : Transaction → Transaction → Bool
same_transaction_payload left right =
    left.portfolio_id == right.portfolio_id
    && text_eq left.external_id right.external_id
    && type_eq left.transaction_type right.transaction_type
    && time_eq left.occurred_at right.occurred_at
    && optional_eq text_eq left.symbol right.symbol
    && optional_eq eq left.quantity right.quantity
    && optional_eq eq left.unit_price right.unit_price
    && optional_eq eq left.cash_amount right.cash_amount
    && eq left.fees right.fees
