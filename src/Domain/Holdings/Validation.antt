-- ===== src/Domain/Holdings/Validation.antt =====
-- `validate_transaction` accepts exactly the transactions that the ledger rules describe.
use portfolio_analytics_api.Common.{
  ◌≡◌, refl, ◌↔◌, inl, inr, true, false, none, some, List, [], ◌∷◌, arith, All, Option-cases,
}
use portfolio_analytics_api.Common.Text.{
  Text, strip, upper, is_blank, text_eq, text_eq→eq, text_eq_refl,
}
use portfolio_analytics_api.Decimal.{Decimal}
use portfolio_analytics_api.Decimal.Sign.{IsNonNegative, IsPositive}
use portfolio_analytics_api.Errors.{ok, for_each}
use portfolio_analytics_api.Domain.Models.{
  TransactionType, buy, sell, deposit, withdrawal, is_naive, Transaction,
}
use portfolio_analytics_api.Domain.Holdings.{
  created_naive, symbol_differs, validate_trade, validate_cash, validate_payload,
  validate_transaction,
}

pub record IsTrade (t : Transaction) : Type 0 where
  pub symbol : Text
  pub quantity : Decimal
  pub unit_price : Decimal
  pub has_symbol : t.symbol ≡ some symbol
  pub has_quantity : t.quantity ≡ some quantity
  pub has_unit_price : t.unit_price ≡ some unit_price
  pub not_blank : is_blank symbol ≡ false
  pub normalized : symbol ≡ upper (strip symbol)
  pub positive_quantity : IsPositive quantity
  pub positive_price : IsPositive unit_price
  pub no_cash : t.cash_amount ≡ none

pub record IsCashFlow (t : Transaction) : Type 0 where
  pub amount : Decimal
  pub has_amount : t.cash_amount ≡ some amount
  pub positive_amount : IsPositive amount
  pub no_symbol : t.symbol ≡ none
  pub no_quantity : t.quantity ≡ none
  pub no_unit_price : t.unit_price ≡ none

abbrev pub IsPayload : TransactionType → Transaction → Type 0
IsPayload buy t = IsTrade t
IsPayload sell t = IsTrade t
IsPayload deposit t = IsCashFlow t
IsPayload withdrawal t = IsCashFlow t

-- The ledger rules: an identifier, times with a zone, fees of zero or more, and the fields that
-- belong to the kind of transaction, no others.
pub record IsWellFormed (t : Transaction) : Type 0 where
  pub identified : is_blank t.external_id ≡ false
  pub occurred_aware : is_naive t.occurred_at ≡ false
  pub created_aware : created_naive t.created_at ≡ false
  pub fees_valid : IsNonNegative t.fees
  pub payload : IsPayload t.transaction_type t

symbol_normalized : (s : Text) → symbol_differs (some s) ≡ false → s ≡ upper (strip s)
symbol_normalized s h = text_eq→eq s (upper (strip s)) (ground arith)

validate_trade-IsTrade : (t : Transaction) → validate_trade t ≡ ok tt → IsTrade t
validate_trade-IsTrade t h = elim (Option-cases t.symbol) [
  | inl e ↦ absurd (ground arith)
  | inr (s, es) ↦ elim (Option-cases t.quantity) [
    | inl e ↦ absurd (ground arith)
    | inr (q, eq) ↦ elim (Option-cases t.unit_price) [
      | inl e ↦ absurd (ground arith)
      | inr (p, ep) ↦ record {
        symbol = s;
        quantity = q;
        unit_price = p;
        has_symbol = es;
        has_quantity = eq;
        has_unit_price = ep;
        not_blank = ground arith;
        normalized = symbol_normalized s (ground arith);
        positive_quantity = ground arith;
        positive_price = ground arith;
        no_cash = ground arith;
      }
    ]
  ]
]

validate_cash-IsCashFlow : (t : Transaction) → validate_cash t ≡ ok tt → IsCashFlow t
validate_cash-IsCashFlow t h = elim (Option-cases t.cash_amount) [
  | inl e ↦ absurd (ground arith)
  | inr (a, e) ↦ record {
    amount = a;
    has_amount = e;
    positive_amount = ground arith;
    no_symbol = ground arith;
    no_quantity = ground arith;
    no_unit_price = ground arith;
  }
]

validate_payload-IsPayload :
    (type : TransactionType) (t : Transaction) → validate_payload type t ≡ ok tt → IsPayload type t
validate_payload-IsPayload buy t h = validate_trade-IsTrade t h
validate_payload-IsPayload sell t h = validate_trade-IsTrade t h
validate_payload-IsPayload deposit t h = validate_cash-IsCashFlow t h
validate_payload-IsPayload withdrawal t h = validate_cash-IsCashFlow t h

IsTrade-validate_trade : (t : Transaction) → IsTrade t → validate_trade t ≡ ok tt
IsTrade-validate_trade t h =
    let e : text_eq h.symbol (upper (strip h.symbol)) ≡ true =
      rw (← h.normalized) (text_eq_refl h.symbol) in
    ground arith

IsPayload-validate_payload :
    (type : TransactionType) (t : Transaction) → IsPayload type t → validate_payload type t ≡ ok tt
IsPayload-validate_payload buy t h = IsTrade-validate_trade t h
IsPayload-validate_payload sell t h = IsTrade-validate_trade t h
IsPayload-validate_payload deposit t h = ground arith
IsPayload-validate_payload withdrawal t h = ground arith

validate_transaction-IsWellFormed :
    (t : Transaction) → validate_transaction t ≡ ok tt → IsWellFormed t
unfolding validate_transaction
validate_transaction-IsWellFormed t h = record {
  identified = ground arith;
  occurred_aware = ground arith;
  created_aware = ground arith;
  fees_valid = ground arith;
  payload = validate_payload-IsPayload t.transaction_type t (ground arith);
}

-- A transaction passes `validate_transaction` exactly when it is well formed.
pub validate_transaction_iff : (t : Transaction) → (validate_transaction t ≡ ok tt) ↔ IsWellFormed t
unfolding validate_transaction
validate_transaction_iff t = (
  validate_transaction-IsWellFormed t,
  λ h. ground (arith, IsPayload-validate_payload t.transaction_type t h.payload),
)

pub for_each-All :
    (ts : List Transaction) → for_each validate_transaction ts ≡ ok tt → All IsWellFormed ts
for_each-All [] h = tt
for_each-All (t ∷ ts) h =
    ((validate_transaction_iff t).0 (ground arith), for_each-All ts (ground arith))

pub All-for_each :
    (ts : List Transaction) → All IsWellFormed ts → for_each validate_transaction ts ≡ ok tt
All-for_each [] h = refl
All-for_each (t ∷ ts) h = ground (arith, (validate_transaction_iff t).1 h.0, All-for_each ts h.1)
