-- ===== src/Api/Schemas.antt =====
-- The request bodies of api/schemas.py and their validators. What pydantic does with a document,
-- the conversions and the declared constraints, is an argument that takes the validators.
use portfolio_analytics_api.Decimal.{Decimal}
use portfolio_analytics_api.Domain.Models.{
  withdrawal, deposit, sell, buy, naive, aware, TransactionType, DateTime,
}
use portfolio_analytics_api.Common.Text.{Text}
use portfolio_analytics_api.Common.{
  ◌&&◌, ◌≢◌, not, ◌||◌, ◌≡◌, if◌then◌else◌, Bool, List, Option, [], some, none, false, true,
}
use portfolio_analytics_api.Services.Payload.{NewTransaction}

pub record TransactionInput : Type 0 where
  pub external_id : Text
  pub transaction_type : TransactionType
  pub occurred_at : DateTime
  pub symbol : Option Text
  pub quantity : Option Decimal
  pub unit_price : Option Decimal
  pub cash_amount : Option Decimal
  pub fees : Decimal

-- The messages of the validators' `ValueError`s.
pub data InputFault : Type 0 where
  timezone_required trade_incomplete trade_with_cash_amount : InputFault
  cash_amount_required cash_with_trade_fields : InputFault

-- `occurred_at_requires_timezone`, `none` where it passes.
abbrev pub occurred_at_requires_timezone : DateTime → Option InputFault
occurred_at_requires_timezone (aware _) = none
occurred_at_requires_timezone (naive _) = some timezone_required

abbrev pub is_none {ℓ} : {A : Type ℓ} → Option A → Bool
is_none none = true
is_none (some _) = false

abbrev pub check_trade : TransactionInput → Option InputFault
check_trade input =
    if is_none input.symbol || is_none input.quantity || is_none input.unit_price
    then some trade_incomplete
    else if not (is_none input.cash_amount)
    then some trade_with_cash_amount
    else none

abbrev pub check_cash : TransactionInput → Option InputFault
check_cash input =
    if is_none input.cash_amount
    then some cash_amount_required
    else if not (is_none input.symbol && is_none input.quantity && is_none input.unit_price)
    then some cash_with_trade_fields
    else none

abbrev pub check_type : TransactionType → TransactionInput → Option InputFault
check_type buy input = check_trade input
check_type sell input = check_trade input
check_type deposit input = check_cash input
check_type withdrawal input = check_cash input

-- `payload_matches_transaction_type`, `none` where it passes.
unfoldable pub payload_matches_transaction_type : TransactionInput → Option InputFault
payload_matches_transaction_type input = check_type input.transaction_type input

-- The `NewTransaction` that the import and the route build of an input.
abbrev pub new_transaction_of : TransactionInput → NewTransaction
new_transaction_of input = record {
  external_id = input.external_id;
  transaction_type = input.transaction_type;
  occurred_at = input.occurred_at;
  symbol = input.symbol;
  quantity = input.quantity;
  unit_price = input.unit_price;
  cash_amount = input.cash_amount;
  fees = input.fees;
}

-- One entry of `ValidationError.errors()`.
pub record FieldError : Type 0 where
  pub loc : List Text
  pub msg : Option Text

pub data Validated : Type 0 where
  refused : List FieldError → Validated
  accepted : TransactionInput → Validated

-- A document: its keys with a text or null.
abbrev pub Document : Type 0
Document = List (Text × Option Text)

-- `BaseModel.model_validate`
abbrev pub Pydantic : Type 0
Pydantic =
    (DateTime → Option InputFault) → (TransactionInput → Option InputFault) → Document → Validated

-- What pydantic promises of any validators: an input that it accepts has passed them, and a
-- refusal names an error.
pub record IsPydantic (validate : Pydantic) : Type 0 where
  pub passes_field :
      (at_time : DateTime → Option InputFault) (after : TransactionInput → Option InputFault)
      (document : Document) (input : TransactionInput)
      → validate at_time after document ≡ accepted input
      → at_time input.occurred_at ≡ none
  pub passes_model :
      (at_time : DateTime → Option InputFault) (after : TransactionInput → Option InputFault)
      (document : Document) (input : TransactionInput)
      → validate at_time after document ≡ accepted input
      → after input ≡ none
  pub names_error :
      (at_time : DateTime → Option InputFault) (after : TransactionInput → Option InputFault)
      (document : Document)
      → validate at_time after document ≢ refused []
