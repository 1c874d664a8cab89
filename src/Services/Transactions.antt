-- ===== src/Services/Transactions.antt =====
-- `TransactionService` of application/services.py over the in-memory store. What the identifier
-- factory and the clock return are arguments.
pub mod Invariant
pub mod Redraw
pub mod Create
pub mod Listing
use portfolio_analytics_api.Common.{
  ◌==◌, if◌then◌else◌, Bool, true, false, Option, none, some, List, [], ◌∷◌, ◌++◌,
}
use portfolio_analytics_api.Errors.{Result, ok, err, portfolio_not_found, idempotency_conflict}
use portfolio_analytics_api.Domain.Models.{Uuid, DateTime, Transaction, Portfolio}
use portfolio_analytics_api.Domain.Holdings.{validate_transaction, derive_positions}
use portfolio_analytics_api.Memory.{
  Action, ◌>>=◌, ◌>>◌, pure, lift, portfolios_get, portfolios_get_for_update, transactions_add,
  transactions_get_by_external_id, transactions_list,
}
use portfolio_analytics_api.Services.Payload.{
  NewTransaction, build_transaction, same_transaction_payload,
}

pub record TransactionCreation : Type 0 where
  pub transaction : Transaction
  pub created : Bool

-- `if portfolio is None or portfolio.owner_id != owner_id: raise PortfolioNotFoundError`
abbrev pub require_owned : Uuid → Uuid → Option Portfolio → Action Portfolio
require_owned owner_id portfolio_id none = lift (err (portfolio_not_found portfolio_id))
require_owned owner_id portfolio_id (some portfolio) =
    if portfolio.owner_id == owner_id
    then pure portfolio
    else lift (err (portfolio_not_found portfolio_id))

-- The rest of `create` once the external identifier has been looked up.
abbrev pub resolve_creation : Uuid → Transaction → Option Transaction → Action TransactionCreation
resolve_creation portfolio_id transaction (some existing) =
    if same_transaction_payload existing transaction
    then pure (record { transaction = existing; created = false })
    else lift (err (idempotency_conflict portfolio_id transaction.external_id))
resolve_creation portfolio_id transaction none = do
  ledger ← transactions_list portfolio_id
  lift (derive_positions (ledger ++ transaction ∷ []))
  transactions_add transaction
  pure (record { transaction = transaction; created = true })

-- From the built transaction on.
unfoldable pub record_transaction : Uuid → Transaction → Action TransactionCreation
record_transaction portfolio_id transaction = do
  lift (validate_transaction transaction)
  existing ← transactions_get_by_external_id portfolio_id transaction.external_id
  resolve_creation portfolio_id transaction existing

unfoldable pub create : Uuid → Uuid → NewTransaction → Uuid → DateTime → Action TransactionCreation
unfolding record_transaction
create owner_id portfolio_id new transaction_id created_at = do
  portfolio ← portfolios_get_for_update portfolio_id
  require_owned owner_id portfolio_id portfolio
  transaction ← lift (build_transaction portfolio_id new transaction_id created_at)
  record_transaction portfolio_id transaction

-- `TransactionService.list`
unfoldable pub list_transactions : Uuid → Uuid → Action (List Transaction)
list_transactions owner_id portfolio_id = do
  portfolio ← portfolios_get portfolio_id
  require_owned owner_id portfolio_id portfolio
  transactions_list portfolio_id
