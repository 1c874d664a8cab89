-- ===== src/Services/Import/Commit.antt =====
-- `TransactionImportService.commit`: each row is created by `TransactionService.create`, and the
-- rows after a failed one go on.
use portfolio_analytics_api.Services.Payload.{NewTransaction}
use portfolio_analytics_api.Common.{◌+◌, ◌∷◌, none, [], some, if◌then◌else◌, length, ℕ, List}
use portfolio_analytics_api.Domain.Models.{DateTime, Portfolio, Uuid}
use portfolio_analytics_api.Memory.{portfolios_get, Action, ◌>>=◌, ◌>>◌, pure, lift}
use portfolio_analytics_api.Errors.{idempotency_conflict, invalid_transaction, Result, ok, err}
use portfolio_analytics_api.Services.Import.{
  idempotency_issue, importable, invalid_transaction_issue, count_import_status, import_row_result,
  TransactionImportRowResult, TransactionImportCandidate, created, replayed, failed,
}
use portfolio_analytics_api.Services.Transactions.{create, TransactionCreation, require_owned}

-- The two `except` branches and the `else` branch.
abbrev pub commit_outcome :
    TransactionImportCandidate → Result TransactionCreation → Result TransactionImportRowResult
commit_outcome candidate (ok creation) = ok (
    import_row_result candidate (if creation.created then created else replayed)
      (some creation.transaction) [])
commit_outcome candidate (err (invalid_transaction fault)) =
    ok (import_row_result candidate failed none (invalid_transaction_issue fault ∷ []))
commit_outcome candidate (err (idempotency_conflict pid external_id)) =
    ok (import_row_result candidate failed none (idempotency_issue ∷ []))
commit_outcome candidate (err e) = err e

unfoldable pub commit_new :
    Uuid
    → Uuid
    → TransactionImportCandidate
    → NewTransaction
    → Uuid × DateTime
    → Action TransactionImportRowResult
unfolding create
commit_new owner_id pid candidate new (id, now) s =
    let (r, s') = create owner_id pid new id now s in (commit_outcome candidate r, s')

module _ (owner_id pid : Uuid) (draw : ℕ → Uuid × DateTime) where
  unfoldable pub commit_rows :
      List TransactionImportCandidate → ℕ → Action (List TransactionImportRowResult)
  unfolding commit_new
  commit_rows [] n = pure []
  commit_rows (candidate ∷ candidates) n = elim (importable candidate) [
    | none ↦ do
      rows ← commit_rows candidates n
      pure (import_row_result candidate failed none [] ∷ rows)
    | some new ↦ do
      row ← commit_new owner_id pid candidate new (draw n)
      rows ← commit_rows candidates (n + 1)
      pure (row ∷ rows)
  ]

pub record TransactionImportCommit : Type 0 where
  pub rows : List TransactionImportRowResult
  pub total_rows : ℕ
  pub created_rows : ℕ
  pub replayed_rows : ℕ
  pub failed_rows : ℕ

unfoldable pub summarize_commit : List TransactionImportRowResult → TransactionImportCommit
summarize_commit rows = record {
  rows = rows;
  total_rows = length rows;
  created_rows = count_import_status rows created;
  replayed_rows = count_import_status rows replayed;
  failed_rows = count_import_status rows failed;
}

-- `_assert_owned`
unfoldable pub assert_owned : Uuid → Uuid → Action Portfolio
unfolding portfolios_get
assert_owned owner_id pid = do portfolio ← portfolios_get pid; require_owned owner_id pid portfolio

unfoldable pub commit :
    (parser : List ℕ → Result (List TransactionImportCandidate)) (draw : ℕ → Uuid × DateTime)
    → Uuid
    → Uuid
    → List ℕ
    → Action TransactionImportCommit
unfolding commit_rows summarize_commit assert_owned
commit parser draw owner_id pid csv_data = do
  assert_owned owner_id pid
  candidates ← lift (parser csv_data)
  rows ← commit_rows owner_id pid draw candidates 0
  pure (summarize_commit rows)
