-- ===== src/Domain/Holdings/Replay.antt =====
-- Replaying a ledger: which outcomes are possible, what the dictionary holds, and that the
-- quantity of a symbol comes from its own trades alone.
use portfolio_analytics_api.Common.{
  ◌≡◌, refl, inl, inr, true, false, Option, none, some, List, [], ◌∷◌, arith, All, Bool-cases,
  if◌then◌else◌, ap, ◌∙◌,
}
use portfolio_analytics_api.Common.Text.{Text, text_eq, text_eq→eq, text_eq_symm}
use portfolio_analytics_api.Decimal.{Decimal, add, sub, below_zero, zero_decimal}
use portfolio_analytics_api.Decimal.Sign.{
  IsNonNegative, IsPositive, add-IsNonNegative, sub-IsFinite, positive→IsNonNegative,
  zero-IsNonNegative,
}
use portfolio_analytics_api.Errors.{
  invalid_transaction, sell_exceeds_position, Result, ok, err, >>=-eq-ok, Result-cases,
}
use portfolio_analytics_api.Domain.Models.{
  TransactionType, buy, sell, deposit, withdrawal, Transaction,
}
use portfolio_analytics_api.Domain.Quantities.{
  Dict, lookup, get_or, insert, lookup-insert, get_or-insert,
}
use portfolio_analytics_api.Domain.Holdings.{trade_position, asserted_trade, ledger_step, replay}
use portfolio_analytics_api.Domain.Holdings.Validation.{IsTrade, IsPayload, IsWellFormed}

-- Every quantity is zero or more, and no symbol is listed twice.
abbrev pub IsHoldings : Dict Decimal → Type 0
IsHoldings [] = Unit
IsHoldings ((k, v) ∷ d) = IsNonNegative v × (lookup k d ≡ none) × IsHoldings d

get_or-IsNonNegative :
    (k : Text) (d : Dict Decimal) → IsHoldings d → IsNonNegative (get_or zero_decimal k d)
get_or-IsNonNegative k [] h = zero-IsNonNegative
get_or-IsNonNegative k ((j, v) ∷ d) h =
    elim (text_eq j k) as (λ b. IsNonNegative (if b then v else get_or zero_decimal k d)) [
      | true ↦ h.0
      | false ↦ get_or-IsNonNegative k d h.2
    ]

insert-IsHoldings :
    (k : Text) (v : Decimal) (d : Dict Decimal)
    → IsNonNegative v
    → IsHoldings d
    → IsHoldings (insert k v d)
insert-IsHoldings k v [] p h = (p, refl, tt)
insert-IsHoldings k v ((j, w) ∷ d) p h =
    ground (arith, insert-IsHoldings k v d p h.2, lookup-insert j k v d, text_eq_symm k j)

-- One trade ends in a valid dictionary, or in the refusal of a SELL.
abbrev pub Replays : Result (Dict Decimal) → Type 0
Replays (ok d) = IsHoldings d
Replays (err e) = (s : Text) × (e ≡ invalid_transaction (sell_exceeds_position s))

sell_position-Replays :
    (s : Text) (q : Decimal) (d : Dict Decimal)
    → IsPositive q
    → IsHoldings d
    → Replays (trade_position sell s q d)
sell_position-Replays s q d p h =
    let left = sub (get_or zero_decimal s d) q in
    let held = get_or-IsNonNegative s d h in
    elim (Bool-cases (below_zero left)) [
      | inl e ↦ rw e (s, refl)
      | inr e ↦ rw e (insert-IsHoldings s left d (sub-IsFinite _ q held.0 p.0, e) h)
    ]

trade-Replays :
    (type : TransactionType) (t : Transaction) (d : Dict Decimal)
    → ((s : Text) (q : Decimal) → IsPositive q → Replays (trade_position type s q d))
    → IsTrade t
    → Replays (asserted_trade type t.symbol t.quantity d)
trade-Replays type t d each p =
    rw (p.has_symbol, p.has_quantity) (each p.symbol p.quantity p.positive_quantity)

ledger_step-Replays :
    (type : TransactionType) (t : Transaction) (d : Dict Decimal)
    → IsPayload type t
    → IsHoldings d
    → Replays (ledger_step type t d)
unfolding ledger_step
ledger_step-Replays buy t d p h =
    trade-Replays buy t d
      (λ s q pos.
        insert-IsHoldings s _ d
          (add-IsNonNegative _ q (get_or-IsNonNegative s d h) (positive→IsNonNegative q pos)) h)
      p
ledger_step-Replays sell t d p h =
    trade-Replays sell t d (λ s q pos. sell_position-Replays s q d pos h) p
ledger_step-Replays deposit t d p h = h
ledger_step-Replays withdrawal t d p h = h

-- A well-formed ledger replays to a valid dictionary or to a refused SELL, never to a failed
-- assertion.
pub replay-Replays :
    (ts : List Transaction) (d : Dict Decimal)
    → All IsWellFormed ts
    → IsHoldings d
    → Replays (replay ts d)
unfolding replay
replay-Replays [] d w h = h
replay-Replays (t ∷ ts) d w h =
    let step = ledger_step-Replays t.transaction_type t d w.0.payload h in
    elim (Result-cases (ledger_step t.transaction_type t d)) [
      | inl (d', e) ↦ rw e (replay-Replays ts d' w.1 (rw e at step))
      | inr (x, e) ↦ rw e (rw e at step)
    ]

-- The effect of one transaction on the quantity of `s`.
abbrev pub own_step : Text → TransactionType → Option Text → Option Decimal → Decimal → Decimal
own_step s buy (some j) (some q) x = if text_eq j s then add x q else x
own_step s sell (some j) (some q) x = if text_eq j s then sub x q else x
own_step s _ _ _ x = x

-- The running balance of the BUYs and SELLs of `s` alone, in their order.
abbrev pub own_balance : Text → List Transaction → Decimal → Decimal
own_balance s [] x = x
own_balance s (t ∷ ts) x = own_balance s ts (own_step s t.transaction_type t.symbol t.quantity x)

trade-own :
    (s : Text) (type : TransactionType) (t : Transaction) (d d' : Dict Decimal)
    → IsPayload type t
    → ledger_step type t d ≡ ok d'
    → get_or zero_decimal s d' ≡ own_step s type t.symbol t.quantity (get_or zero_decimal s d)
unfolding ledger_step
trade-own s buy t d d' p e = ground (
  arith,
  p.has_symbol,
  p.has_quantity,
  get_or-insert zero_decimal s p.symbol (add (get_or zero_decimal p.symbol d) p.quantity) d,
  text_eq→eq p.symbol s,
)
trade-own s sell t d d' p e = ground (
  arith,
  p.has_symbol,
  p.has_quantity,
  get_or-insert zero_decimal s p.symbol (sub (get_or zero_decimal p.symbol d) p.quantity) d,
  text_eq→eq p.symbol s,
)
trade-own s deposit t d d' p e = ground (arith, p.no_symbol)
trade-own s withdrawal t d d' p e = ground (arith, p.no_symbol)

-- After a replay every symbol stands at the running balance of its own trades.
pub replay-own_balance :
    (s : Text) (ts : List Transaction) (d d' : Dict Decimal)
    → All IsWellFormed ts
    → replay ts d ≡ ok d'
    → get_or zero_decimal s d' ≡ own_balance s ts (get_or zero_decimal s d)
unfolding replay
replay-own_balance s [] d d' w e = ground arith
replay-own_balance s (t ∷ ts) d d' w e =
    let (m, first, rest) = >>=-eq-ok (ledger_step t.transaction_type t d) (replay ts) e in
    replay-own_balance s ts m d' w.1 rest
    ∙ ap (own_balance s ts) (trade-own s t.transaction_type t d m w.0.payload first)
