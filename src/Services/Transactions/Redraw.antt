-- ===== src/Services/Transactions/Redraw.antt =====
-- A retried request draws another identifier and time of creation: what that leaves unchanged.
use portfolio_analytics_api.Services.Transactions.Invariant.{
  with_transaction, added, underivable, conflicting, record_transaction_known, known, refused,
  Recording,
}
use portfolio_analytics_api.Services.Transactions.{record_transaction, TransactionCreation}
use portfolio_analytics_api.Memory.{InMemoryStore, has_external_id}
use portfolio_analytics_api.Decimal.Sign.{eq_refl}
use portfolio_analytics_api.Decimal.{eq}
use portfolio_analytics_api.Domain.Holdings.{validate_transaction}
use portfolio_analytics_api.Domain.Holdings.Validation.{
  validate_transaction_iff, IsWellFormed, IsPayload, IsCashFlow, IsTrade,
}
use portfolio_analytics_api.Common.Text.{Text, text_eq_refl, text_eq, strip}
use portfolio_analytics_api.Errors.{Result, ok}
use portfolio_analytics_api.Common.{
  ◌∙◌, [], ◌∷◌, ◌++◌, none, find, List, false, true, refl, arith, some, ◌≡◌,
}
use portfolio_analytics_api.Services.Payload.{
  optional_eq, type_eq, same_transaction_payload, time_eq, NewTransaction, build_transaction,
}
use portfolio_analytics_api.Domain.Models.{
  withdrawal, deposit, sell, buy, naive, aware, is_naive, TransactionType, Transaction, DateTime,
  Uuid,
}

-- A transaction is built for its portfolio, with the identifier and time that were drawn.
pub build_transaction_identity :
    (pid : Uuid) (new : NewTransaction) (id : Uuid) (now : DateTime) (t : Transaction)
    → build_transaction pid new id now ≡ ok t
    → (t.portfolio_id ≡ pid)
      × (t.external_id ≡ strip new.external_id)
      × (t.id ≡ id)
      × (t.created_at ≡ some now)
unfolding build_transaction
build_transaction_identity pid new id now t e = ground arith

-- Drawing another identifier and time changes only these two fields.
pub build_transaction_redrawn :
    (pid : Uuid) (new : NewTransaction) (id id' : Uuid) (now now' : DateTime) (t : Transaction)
    → build_transaction pid new id now ≡ ok t
    → build_transaction pid new id' now' ≡ ok (record t { id = id'; created_at = some now' })
unfolding build_transaction
build_transaction_redrawn pid new id id' now now' t e = ground arith

time_eq_refl : (d : DateTime) → time_eq d d ≡ true
time_eq_refl (aware a) = ground arith
time_eq_refl (naive a) = ground arith

type_eq_refl : (type : TransactionType) → type_eq type type ≡ true
type_eq_refl buy = refl
type_eq_refl sell = refl
type_eq_refl deposit = refl
type_eq_refl withdrawal = refl

trade_reflexive :
    (t : Transaction)
    → IsTrade t
    → (optional_eq text_eq t.symbol t.symbol ≡ true)
      × (optional_eq eq t.quantity t.quantity ≡ true)
      × (optional_eq eq t.unit_price t.unit_price ≡ true)
      × (optional_eq eq t.cash_amount t.cash_amount ≡ true)
trade_reflexive t p = (
  rw (p.has_symbol) (text_eq_refl p.symbol),
  rw (p.has_quantity) (eq_refl p.quantity p.positive_quantity.0),
  rw (p.has_unit_price) (eq_refl p.unit_price p.positive_price.0),
  rw (p.no_cash) refl,
)

cash_reflexive :
    (t : Transaction)
    → IsCashFlow t
    → (optional_eq text_eq t.symbol t.symbol ≡ true)
      × (optional_eq eq t.quantity t.quantity ≡ true)
      × (optional_eq eq t.unit_price t.unit_price ≡ true)
      × (optional_eq eq t.cash_amount t.cash_amount ≡ true)
cash_reflexive t p = (
  rw (p.no_symbol) refl,
  rw (p.no_quantity) refl,
  rw (p.no_unit_price) refl,
  rw (p.has_amount) (eq_refl p.amount p.positive_amount.0),
)

redrawn-IsTrade :
    (t : Transaction) (id : Uuid) (now : DateTime)
    → IsTrade t
    → IsTrade (record t { id = id; created_at = some now })
redrawn-IsTrade t id now p = record {
  symbol = p.symbol;
  quantity = p.quantity;
  unit_price = p.unit_price;
  has_symbol = p.has_symbol;
  has_quantity = p.has_quantity;
  has_unit_price = p.has_unit_price;
  not_blank = p.not_blank;
  normalized = p.normalized;
  positive_quantity = p.positive_quantity;
  positive_price = p.positive_price;
  no_cash = p.no_cash;
}

redrawn_cash :
    (t : Transaction) (id : Uuid) (now : DateTime)
    → IsCashFlow t
    → IsCashFlow (record t { id = id; created_at = some now })
redrawn_cash t id now p = record {
  amount = p.amount;
  has_amount = p.has_amount;
  positive_amount = p.positive_amount;
  no_symbol = p.no_symbol;
  no_quantity = p.no_quantity;
  no_unit_price = p.no_unit_price;
}

redrawn-IsPayload :
    (type : TransactionType) (t : Transaction) (id : Uuid) (now : DateTime)
    → IsPayload type t
    → IsPayload type (record t { id = id; created_at = some now })
redrawn-IsPayload buy t id now p = redrawn-IsTrade t id now p
redrawn-IsPayload sell t id now p = redrawn-IsTrade t id now p
redrawn-IsPayload deposit t id now p = redrawn_cash t id now p
redrawn-IsPayload withdrawal t id now p = redrawn_cash t id now p

payload_reflexive :
    (type : TransactionType) (t : Transaction)
    → IsPayload type t
    → (optional_eq text_eq t.symbol t.symbol ≡ true)
      × (optional_eq eq t.quantity t.quantity ≡ true)
      × (optional_eq eq t.unit_price t.unit_price ≡ true)
      × (optional_eq eq t.cash_amount t.cash_amount ≡ true)
payload_reflexive buy t p = trade_reflexive t p
payload_reflexive sell t p = trade_reflexive t p
payload_reflexive deposit t p = cash_reflexive t p
payload_reflexive withdrawal t p = cash_reflexive t p

-- A well-formed transaction has the payload of any copy of it under another identifier.
pub same_payload_redrawn :
    (t : Transaction) (id : Uuid) (now : DateTime)
    → IsWellFormed t
    → same_transaction_payload t (record t { id = id; created_at = some now }) ≡ true
unfolding same_transaction_payload
same_payload_redrawn t id now w = ground (
  arith,
  payload_reflexive t.transaction_type t w.payload,
  text_eq_refl t.external_id,
  type_eq_refl t.transaction_type,
  time_eq_refl t.occurred_at,
  eq_refl t.fees w.fees_valid.0,
)

-- Validation reads the time of creation only for its zone.
pub validate_redrawn :
    (t : Transaction) (id : Uuid) (now : DateTime)
    → is_naive now ≡ false
    → validate_transaction t ≡ ok tt
    → validate_transaction (record t { id = id; created_at = some now }) ≡ ok tt
validate_redrawn t id now zone valid =
    let w = (validate_transaction_iff t).0 valid in
    (validate_transaction_iff (record t { id = id; created_at = some now })).1 (record {
      identified = w.identified;
      occurred_aware = w.occurred_aware;
      created_aware = zone;
      fees_valid = w.fees_valid;
      payload = redrawn-IsPayload t.transaction_type t id now w.payload;
    })

-- The same transaction under another identifier and time of creation.
abbrev pub redraw : Transaction → Uuid → DateTime → Transaction
redraw t id now = record t { id = id; created_at = some now }

same_payload-redraw :
    (x t : Transaction) (id : Uuid) (now : DateTime)
    → same_transaction_payload x (redraw t id now) ≡ same_transaction_payload x t
unfolding same_transaction_payload
same_payload-redraw x t id now = refl

stored-with_transaction :
    (pid : Uuid) (x : Text) (ts : List Transaction) (t : Transaction)
    → find (has_external_id pid x) ts ≡ none
    → has_external_id pid x t ≡ true
    → find (has_external_id pid x) (ts ++ t ∷ []) ≡ some t
stored-with_transaction pid x [] t h k = rw k refl
stored-with_transaction pid x (u ∷ ts) t h k = ground (arith, stored-with_transaction pid x ts t)

has_external_id_self :
    (pid : Uuid) (t : Transaction)
    → t.portfolio_id ≡ pid
    → has_external_id pid t.external_id t ≡ true
has_external_id_self pid t e = ground (arith, text_eq_refl t.external_id)

-- After a success, recording the same payload again finds it and changes nothing.
pub Recording-retry :
    (pid : Uuid) (t : Transaction) (s : InMemoryStore) (id : Uuid) (now : DateTime)
    (c : TransactionCreation) {r : Result TransactionCreation × InMemoryStore}
    → Recording pid t s r
    → t.portfolio_id ≡ pid
    → is_naive now ≡ false
    → r.0 ≡ ok c
    → record_transaction pid (redraw t id now) r.1
      ≡ (ok (record { transaction = c.transaction; created = false }), r.1)
Recording-retry pid t s id now c (refused x bad) own zone h = absurd (cc)
Recording-retry pid t s id now c (known x valid found same) own zone h =
    record_transaction_known pid (redraw t id now) x s (validate_redrawn t id now zone valid) found
      (same_payload-redraw x t id now ∙ same)
    ∙ ground arith
Recording-retry pid t s id now c (conflicting x valid found other) own zone h = absurd (cc)
Recording-retry pid t s id now c (underivable x valid absent bad) own zone h = absurd (cc)
Recording-retry pid t s id now c (added ps valid absent fine) own zone h =
    record_transaction_known pid (redraw t id now) t (with_transaction s t)
      (validate_redrawn t id now zone valid)
      (stored-with_transaction pid t.external_id s.transactions t absent
        (has_external_id_self pid t own))
      (same_payload_redrawn t id now ((validate_transaction_iff t).0 valid))
    ∙ ground arith
