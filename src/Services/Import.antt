-- ===== src/Services/Import.antt =====
-- `TransactionImportService` of application/services.py. The CSV parser is an argument, and the
-- identifier factory and the clock are one sequence of draws: the source calls the two together,
-- once for each row that it builds.
use portfolio_analytics_api.Domain.Models.{Transaction}
use portfolio_analytics_api.Common.{
  [], ◌∷◌, false, ◌++◌, some, none, count, true, List, Bool, Option, ℕ,
}
use portfolio_analytics_api.Common.Text.{text, Text}
pub mod Preview
pub mod Commit
pub mod Simulation
pub mod Rows
pub mod Lockstep
pub mod Agreement
use portfolio_analytics_api.Errors.{TransactionFault, Error, Result}
use portfolio_analytics_api.Services.Payload.{NewTransaction}

-- A message is a literal of the source or the text of an `InvalidTransactionError`.
pub data Message : Type 0 where
  literal : Text → Message
  fault_text : TransactionFault → Message

pub record TransactionImportIssue : Type 0 where
  pub code : Text
  pub message : Message
  pub field : Option Text

pub record TransactionImportCandidate : Type 0 where
  pub row_number : ℕ
  pub external_id : Option Text
  pub new_transaction : Option NewTransaction
  pub issues : List TransactionImportIssue

pub data TransactionImportRowStatus : Type 0 where
  ready replay invalid created replayed failed : TransactionImportRowStatus

pub record TransactionImportRowResult : Type 0 where
  pub row_number : ℕ
  pub external_id : Option Text
  pub status : TransactionImportRowStatus
  pub transaction : Option Transaction
  pub issues : List TransactionImportIssue

-- `_import_row_result`
abbrev pub import_row_result :
    TransactionImportCandidate
    → TransactionImportRowStatus
    → Option Transaction
    → List TransactionImportIssue
    → TransactionImportRowResult
import_row_result candidate status transaction issue = record {
  row_number = candidate.row_number;
  external_id = candidate.external_id;
  status = status;
  transaction = transaction;
  issues = candidate.issues ++ issue;
}

abbrev pub status_eq : TransactionImportRowStatus → TransactionImportRowStatus → Bool
status_eq ready ready = true
status_eq replay replay = true
status_eq invalid invalid = true
status_eq created created = true
status_eq replayed replayed = true
status_eq failed failed = true
status_eq _ _ = false

-- `_count_import_status`
abbrev pub count_import_status : List TransactionImportRowResult → TransactionImportRowStatus → ℕ
count_import_status rows status = count (λ row. status_eq row.status status) rows

-- The transaction of a candidate that has one and no issues.
abbrev pub importable_new :
    Option NewTransaction → List TransactionImportIssue → Option NewTransaction
importable_new none issues = none
importable_new (some new) [] = some new
importable_new (some new) (issue ∷ issues) = none

abbrev pub importable : TransactionImportCandidate → Option NewTransaction
importable candidate = importable_new candidate.new_transaction candidate.issues

pub invalid_transaction_issue : TransactionFault → TransactionImportIssue
invalid_transaction_issue fault = record {
  code = text "invalid_transaction";
  message = fault_text fault;
  field = none;
}

pub invalid_ledger_issue : TransactionFault → TransactionImportIssue
invalid_ledger_issue fault = record {
  code = text "invalid_ledger";
  message = fault_text fault;
  field = none;
}

pub idempotency_issue : TransactionImportIssue
idempotency_issue = record {
  code = text "idempotency_conflict";
  message = literal (text "external_id is already used with different transaction data");
  field = some (text "external_id");
}
