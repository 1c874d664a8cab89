-- ===== src/Errors.antt =====
-- The exceptions of domain/*.py and application/errors.py as values, and the result of code that
-- may raise one. A message is a constructor that names it, with the values that it prints.
use portfolio_analytics_api.Common.{
  arith, ℕ, ◌≡◌, refl, Bool, true, false, List, [], ◌∷◌, ◌⊎◌, inl, inr,
}
use portfolio_analytics_api.Common.Text.{Text}

-- The messages of `InvalidTransactionError`.
pub data TransactionFault : Type 0 where
  external_id_blank occurred_at_naive created_at_naive : TransactionFault
  symbol_required symbol_not_normalized trade_with_cash cash_with_trade : TransactionFault
  fees_not_valid quantity_not_valid unit_price_not_valid cash_amount_not_valid : TransactionFault
  sell_exceeds_position : Text → TransactionFault
  exceeds_precision exceeds_scale : Text → TransactionFault

-- The messages of `InvalidPortfolioValuationError`.
pub data ValuationFault : Type 0 where
  start_after_end no_holdings no_market_dates no_positive_balance : ValuationFault
  no_prices no_usable_price sell_exceeds : Text → ValuationFault
  withdrawal_exceeds_cash fees_exceed_cash value_not_positive : ValuationFault
  adjusted_value_not_positive : ValuationFault

-- The messages of `InvalidPriceSeriesError`.
pub data PriceFault : Type 0 where
  symbol_mismatch : Text → Text → PriceFault
  close_not_valid : Text → PriceFault
  duplicate_price_date : Text → ℕ → PriceFault
  duplicate_date close_not_valid_on : ℕ → PriceFault

-- The messages of `MarketDataInvalidResponseError`.
pub data ResponseFault : Type 0 where
  not_json not_object rejected status_not_valid timezone_missing values_missing : ResponseFault
  truncated row_not_object session_missing session_not_valid : ResponseFault
  duplicate_session close_missing close_unreadable close_not_positive : ℕ → ResponseFault
  no_frame column_missing index_not_datetime frame_timezone_missing : ResponseFault
  index_not_valid provider_data_error : ResponseFault

pub data Error : Type 0 where
  invalid_transaction : TransactionFault → Error
  invalid_valuation : ValuationFault → Error
  invalid_price_series : PriceFault → Error
  analytics_unavailable : ValuationFault → Error
  portfolio_not_found portfolio_already_exists : ℕ → Error
  idempotency_conflict : ℕ → Text → Error
  email_already_registered : Text → Error
  invalid_credentials invalid_access_token : Error
  market_data_not_found : Text → Error
  market_data_invalid_response : ResponseFault → Error
  market_data_rate_limit market_data_unavailable market_data_timeout : Error
  rate_limit_exceeded : ℕ → Error
  insight_generation : Error
  import_format value_error assertion_error type_error csv_error : Error

pub data Result {ℓ} (A : Type ℓ) : Type ℓ where
  ok : A → Result A
  err : Error → Result A

abbrev pub raise_if : Bool → Error → Result (Unit {0})
raise_if false e = ok tt
raise_if true e = err e

infixl 5 ◌>>=◌ ◌>>◌
abbrev pub ◌>>=◌ {ℓ κ} : {X : Type ℓ} {Y : Type κ} → Result X → (X → Result Y) → Result Y
err raised >>= next = err raised
ok value >>= next = next value

abbrev pub ◌>>◌ {κ} : {Y : Type κ} → Result (Unit {0}) → Result Y → Result Y
checked >> next = checked >>= λ _. next

-- `for x in xs: f(x)`, for an `f` that only raises.
abbrev pub for_each {ℓ} : {A : Type ℓ} → (A → Result (Unit {0})) → List A → Result (Unit {0})
for_each f [] = ok tt
for_each f (x ∷ xs) = f x >> for_each f xs

pub >>=-eq-ok {ℓ κ} :
    {X : Type ℓ} {Y : Type κ} (r : Result X) (next : X → Result Y) {y : Y}
    → (r >>= next) ≡ ok y
    → (x : X) × (r ≡ ok x) × (next x ≡ ok y)
>>=-eq-ok (err e) next h = cc
>>=-eq-ok (ok x) next h = (x, refl, h)

pub Result-cases {ℓ} :
    {A : Type ℓ} (m : Result A) → ((a : A) × (m ≡ ok a)) ⊎ ((e : Error) × (m ≡ err e))
Result-cases (ok a) = inl (a, refl)
Result-cases (err e) = inr (e, refl)

-- Every exception that the code can raise has the property.
abbrev pub RaisesOnly {ℓ κ} : {A : Type ℓ} → (Error → Type κ) → Result A → Type κ
RaisesOnly P (ok a) = Unit
RaisesOnly P (err e) = P e

pub RaisesOnly->>= {ℓ κ μ} :
    {A : Type ℓ} {B : Type κ} (P : Error → Type μ) (m : Result A) (f : A → Result B)
    → RaisesOnly P m
    → ((a : A) → RaisesOnly P (f a))
    → RaisesOnly P (m >>= f)
RaisesOnly->>= P (ok a) f h k = k a
RaisesOnly->>= P (err e) f h k = h

pub RaisesOnly-raise_if {κ} :
    (P : Error → Type κ) (b : Bool) (e : Error) → P e → RaisesOnly P (raise_if b e)
RaisesOnly-raise_if P true e h = h
RaisesOnly-raise_if P false e h = tt

-- A check before the rest.
pub RaisesOnly-raise_if->> {ℓ κ} :
    {A : Type ℓ} (P : Error → Type κ) (b : Bool) (e : Error) (r : Result A)
    → P e
    → RaisesOnly P r
    → RaisesOnly P (raise_if b e >> r)
RaisesOnly-raise_if->> P true e r h k = h
RaisesOnly-raise_if->> P false e r h k = k

pub RaisesOnly-err {ℓ κ} :
    {A : Type ℓ} (P : Error → Type κ) (m : Result A) (e : Error) → RaisesOnly P m → m ≡ err e → P e
RaisesOnly-err P (ok a) e h k = absurd (cc)
RaisesOnly-err P (err x) e h k = let same : x ≡ e = ground arith in rw (← same) h

pub raise_if-ok : (b : Bool) (e : Error) → raise_if b e ≡ ok tt → b ≡ false
raise_if-ok true e h = absurd (cc)
raise_if-ok false e h = refl
