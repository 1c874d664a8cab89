-- ===== src/Services/Import/Preview.antt =====
-- `TransactionImportService.preview`: the rows are tried on a copy of the ledger.
use portfolio_analytics_api.Memory.{Action}
use portfolio_analytics_api.Services.Transactions.{list_transactions}
use portfolio_analytics_api.Domain.Holdings.{derive_positions, validate_transaction}
use portfolio_analytics_api.Domain.Models.{DateTime, Transaction, Uuid}
use portfolio_analytics_api.Common.{
  ◌++◌, ◌+◌, ◌∷◌, if◌then◌else◌, some, none, length, ℕ, Option, [], List,
}
use portfolio_analytics_api.Errors.{
  invalid_transaction, TransactionFault, Result, ok, err, ◌>>=◌, ◌>>◌,
}
use portfolio_analytics_api.Domain.Quantities.{Dict, lookup, insert}
use portfolio_analytics_api.Services.Payload.{
  same_transaction_payload, NewTransaction, build_transaction,
}
use portfolio_analytics_api.Services.Import.{
  invalid_ledger_issue, idempotency_issue, invalid_transaction_issue, count_import_status,
  TransactionImportCandidate, TransactionImportRowResult, importable, import_row_result, ready,
  replay, invalid,
}

-- `ledger` and `transactions_by_external_id`
pub record PreviewState : Type 0 where
  pub ledger : List Transaction
  pub by_external_id : Dict Transaction

-- `{transaction.external_id: transaction for transaction in ledger}`
abbrev pub index_ledger : List Transaction → Dict Transaction → Dict Transaction
index_ledger [] d = d
index_ledger (t ∷ ts) d = index_ledger ts (insert t.external_id t d)

unfoldable pub preview_state : List Transaction → PreviewState
preview_state ledger = record { ledger = ledger; by_external_id = index_ledger ledger [] }

-- `try: …` / `except InvalidTransactionError`
abbrev pub except_invalid {ℓ κ} :
    {A : Type ℓ} {B : Type κ} → Result A → (A → Result B) → (TransactionFault → Result B) → Result B
except_invalid (ok a) proceed handler = proceed a
except_invalid (err (invalid_transaction fault)) proceed handler = handler fault
except_invalid (err e) proceed handler = err e

-- Building and validating, the body of the first `try`.
unfoldable pub prepare : Uuid → NewTransaction → Uuid × DateTime → Result Transaction
prepare pid new (id, now) = do
  transaction ← build_transaction pid new id now
  validate_transaction transaction
  ok transaction

abbrev pub RowStep : Type 0
RowStep = Result (TransactionImportRowResult × PreviewState)

-- The rest of the loop's body once the external identifier has been looked up.
abbrev pub preview_resolved :
    TransactionImportCandidate → Transaction → PreviewState → Option Transaction → RowStep
preview_resolved candidate transaction state (some existing) =
    if same_transaction_payload existing transaction
    then ok (import_row_result candidate replay (some existing) [], state)
    else ok (import_row_result candidate invalid none (idempotency_issue ∷ []), state)
preview_resolved candidate transaction state none =
    except_invalid (derive_positions (state.ledger ++ transaction ∷ []))
      (λ _. ok (
        import_row_result candidate ready (some transaction) [],
        record {
          ledger = state.ledger ++ transaction ∷ [];
          by_external_id = insert transaction.external_id transaction state.by_external_id;
        },
      ))
      (λ fault.
        ok (import_row_result candidate invalid none (invalid_ledger_issue fault ∷ []), state))

unfoldable pub preview_new :
    Uuid → TransactionImportCandidate → NewTransaction → Uuid × DateTime → PreviewState → RowStep
unfolding prepare
preview_new pid candidate new drawn state =
    except_invalid (prepare pid new drawn)
      (λ transaction.
        preview_resolved candidate transaction state
          (lookup transaction.external_id state.by_external_id))
      (λ fault.
        ok (import_row_result candidate invalid none (invalid_transaction_issue fault ∷ []), state))

-- The loop over the candidates; `n` counts the draws so far.
module _ (pid : Uuid) (draw : ℕ → Uuid × DateTime) where
  unfoldable pub preview_rows :
      List TransactionImportCandidate → ℕ → PreviewState → Result (List TransactionImportRowResult)
  unfolding preview_new
  preview_rows [] n state = ok []
  preview_rows (candidate ∷ candidates) n state = elim (importable candidate) [
    | none ↦ do
      rows ← preview_rows candidates n state
      ok (import_row_result candidate invalid none [] ∷ rows)
    | some new ↦ do
      (row, state') ← preview_new pid candidate new (draw n) state
      rows ← preview_rows candidates (n + 1) state'
      ok (row ∷ rows)
  ]

pub record TransactionImportPreview : Type 0 where
  pub rows : List TransactionImportRowResult
  pub total_rows : ℕ
  pub ready_rows : ℕ
  pub replay_rows : ℕ
  pub invalid_rows : ℕ

unfoldable pub summarize_preview : List TransactionImportRowResult → TransactionImportPreview
summarize_preview rows = record {
  rows = rows;
  total_rows = length rows;
  ready_rows = count_import_status rows ready;
  replay_rows = count_import_status rows replay;
  invalid_rows = count_import_status rows invalid;
}

module _ (parser : List ℕ → Result (List TransactionImportCandidate))
    (draw : ℕ → Uuid × DateTime) where
  unfoldable pub preview_ledger : Uuid → List ℕ → List Transaction → Result TransactionImportPreview
  unfolding preview_rows preview_state summarize_preview
  preview_ledger pid csv_data ledger = do
    candidates ← parser csv_data
    rows ← preview_rows pid draw candidates 0 (preview_state ledger)
    ok (summarize_preview rows)

  unfoldable pub preview : Uuid → Uuid → List ℕ → Action TransactionImportPreview
  unfolding preview_ledger list_transactions
  preview owner_id pid csv_data s =
      let (ledger, s') = list_transactions owner_id pid s in
      (ledger >>= preview_ledger pid csv_data, s')
