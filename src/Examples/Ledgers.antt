-- ===== src/Examples/Ledgers.antt =====
-- Runs of domain/holdings.py, and its theorems at concrete ledgers.
use portfolio_analytics_api.Decimal.{
  eq, le, lt, negate, div, mul, sub, add, nonzero, not_above_zero, below_zero, is_finite,
  zero_decimal,
}
use portfolio_analytics_api.Domain.Holdings.Replay.{own_balance}
use portfolio_analytics_api.Common.Text.{upper, is_space, strip_left, Text, strip, is_blank}
use portfolio_analytics_api.Common.Sort.{sort_by}
use portfolio_analytics_api.Domain.Models.{Position}
use portfolio_analytics_api.Domain.Holdings.Validation.{
  validate_transaction_iff, for_each-All, IsWellFormed,
}
use mathlib.Core.List.{Permᴰ}
use portfolio_analytics_api.Examples.Data.{
  ledger, bought, paid_in, sold, apple, left_over, oversold,
}
use portfolio_analytics_api.Domain.Holdings.Positions.{
  quantity_of-derive_positions, derive_positions_perm, derive_positions_outcome, when_open,
  derive_positions-IsPortfolio, quantity_of, IsPortfolio,
}
use portfolio_analytics_api.Domain.Holdings.{
  ledger_order_le, ledger_step, derive_positions, validate_transaction,
}
use portfolio_analytics_api.Common.{◌↔◌, ◌⊎◌, ◌≡◌, List, All, arith, ◌∷◌, [], refl}
use portfolio_analytics_api.Errors.{sell_exceeds_position, invalid_transaction, ok, err}

-- What a run of the domain layer computes with.
domain : Unit {0}
unfolding mathlib.Core.Bool.xor validate_transaction derive_positions ledger_step sort_by is_blank
    strip strip_left is_space upper is_finite below_zero not_above_zero nonzero add sub mul div
    negate lt le eq
domain = tt

derive_positions-ledger : derive_positions ledger ≡ ok left_over
unfolding domain
derive_positions-ledger = refl

derive_positions-oversold :
    derive_positions (oversold ∷ ledger) ≡ err (invalid_transaction (sell_exceeds_position apple))
unfolding domain
derive_positions-oversold = refl

derive_positions-IsPortfolio_example : IsPortfolio left_over
derive_positions-IsPortfolio_example =
    derive_positions-IsPortfolio ledger left_over derive_positions-ledger

quantity_of-derive_positions_example :
    quantity_of apple left_over
    ≡ when_open (own_balance apple (sort_by ledger_order_le ledger) zero_decimal)
quantity_of-derive_positions_example =
    quantity_of-derive_positions apple ledger left_over derive_positions-ledger

ledger-IsWellFormed : All IsWellFormed ledger
unfolding domain
ledger-IsWellFormed = for_each-All ledger refl

derive_positions_outcome_example :
    ((ps : List Position) × (derive_positions ledger ≡ ok ps))
    ⊎ ((s : Text) × (derive_positions ledger ≡ err (invalid_transaction (sell_exceeds_position s))))
derive_positions_outcome_example = derive_positions_outcome ledger ledger-IsWellFormed

validate_transaction_iff_example : (validate_transaction sold ≡ ok tt) ↔ IsWellFormed sold
validate_transaction_iff_example = validate_transaction_iff sold

derive_positions_perm_example :
    derive_positions ledger ≡ derive_positions (paid_in ∷ sold ∷ bought ∷ [])
derive_positions_perm_example =
    derive_positions_perm ledger (paid_in ∷ sold ∷ bought ∷ []) (Permᴰ.swap refl refl)
      ledger-IsWellFormed (ground arith)
