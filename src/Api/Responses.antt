-- ===== src/Api/Responses.antt =====
-- The response bodies of api/schemas.py and how the routes make them.
use portfolio_analytics_api.Decimal.{Decimal}
use portfolio_analytics_api.Services.Transactions.{TransactionCreation}
use portfolio_analytics_api.Common.Text.{text, Text}
use portfolio_analytics_api.Domain.Models.{
  DateTime, TransactionType, Transaction, Portfolio, User, Uuid,
}
use portfolio_analytics_api.Common.{if◌then◌else◌, ℕ, Option, map, List, some, none}
use portfolio_analytics_api.Services.Import.{
  TransactionImportRowResult, TransactionImportRowStatus, TransactionImportIssue,
}
use portfolio_analytics_api.Services.Import.Preview.{TransactionImportPreview}
use portfolio_analytics_api.Services.Import.Commit.{TransactionImportCommit}
use portfolio_analytics_api.Services.Accounts.{AccessToken}
use portfolio_analytics_api.Services.Portfolios.{PortfolioPage}

pub record UserResponse : Type 0 where
  pub id : Uuid
  pub email : Text

abbrev pub user_response : User → UserResponse
user_response user = record { id = user.id; email = user.email }

pub record AccessTokenResponse : Type 0 where
  pub access_token : Text
  pub token_type : Text
  pub expires_in : ℕ

abbrev pub access_token_response : AccessToken → AccessTokenResponse
access_token_response token = record {
  access_token = token.value;
  token_type = text "bearer";
  expires_in = token.expires_in_seconds;
}

pub record PortfolioResponse : Type 0 where
  pub id : Uuid
  pub name : Text
  pub base_currency : Text

abbrev pub portfolio_response : Portfolio → PortfolioResponse
portfolio_response portfolio = record {
  id = portfolio.id;
  name = portfolio.name;
  base_currency = portfolio.base_currency;
}

pub record PortfolioPageResponse : Type 0 where
  pub items : List PortfolioResponse
  pub total : ℕ
  pub limit : ℕ
  pub offset : ℕ

abbrev pub portfolio_page_response : PortfolioPage → PortfolioPageResponse
portfolio_page_response page = record {
  items = map portfolio_response page.items;
  total = page.total;
  limit = page.limit;
  offset = page.offset;
}

pub record TransactionResponse : Type 0 where
  pub id : Uuid
  pub portfolio_id : Uuid
  pub external_id : Text
  pub transaction_type : TransactionType
  pub occurred_at : DateTime
  pub symbol : Option Text
  pub quantity : Option Decimal
  pub unit_price : Option Decimal
  pub cash_amount : Option Decimal
  pub fees : Decimal

abbrev pub transaction_response : Transaction → TransactionResponse
transaction_response t = record {
  id = t.id;
  portfolio_id = t.portfolio_id;
  external_id = t.external_id;
  transaction_type = t.transaction_type;
  occurred_at = t.occurred_at;
  symbol = t.symbol;
  quantity = t.quantity;
  unit_price = t.unit_price;
  cash_amount = t.cash_amount;
  fees = t.fees;
}

-- The response and its status: 201 for a new transaction, 200 for a replayed one.
abbrev pub creation_response : TransactionCreation → ℕ × TransactionResponse
creation_response result =
    (if result.created then 201 else 200, transaction_response result.transaction)

pub record TransactionImportValueResponse : Type 0 where
  pub external_id : Text
  pub transaction_type : TransactionType
  pub occurred_at : DateTime
  pub symbol : Option Text
  pub quantity : Option Decimal
  pub unit_price : Option Decimal
  pub cash_amount : Option Decimal
  pub fees : Decimal

-- `_transaction_import_value`
abbrev pub transaction_import_value : Transaction → TransactionImportValueResponse
transaction_import_value t = record {
  external_id = t.external_id;
  transaction_type = t.transaction_type;
  occurred_at = t.occurred_at;
  symbol = t.symbol;
  quantity = t.quantity;
  unit_price = t.unit_price;
  cash_amount = t.cash_amount;
  fees = t.fees;
}

abbrev pub when_there {ℓ κ} : {A : Type ℓ} {B : Type κ} → (A → B) → Option A → Option B
when_there f none = none
when_there f (some a) = some (f a)

pub record PreviewRowResponse : Type 0 where
  pub row_number : ℕ
  pub external_id : Option Text
  pub status : TransactionImportRowStatus
  pub normalized : Option TransactionImportValueResponse
  pub errors : List TransactionImportIssue

pub record PreviewSummaryResponse : Type 0 where
  pub total_rows : ℕ
  pub ready_rows : ℕ
  pub replay_rows : ℕ
  pub invalid_rows : ℕ

pub record PreviewResponse : Type 0 where
  pub rows : List PreviewRowResponse
  pub summary : PreviewSummaryResponse

abbrev pub preview_row_response : TransactionImportRowResult → PreviewRowResponse
preview_row_response row = record {
  row_number = row.row_number;
  external_id = row.external_id;
  status = row.status;
  normalized = when_there transaction_import_value row.transaction;
  errors = row.issues;
}

abbrev pub preview_response : TransactionImportPreview → PreviewResponse
preview_response preview = record {
  rows = map preview_row_response preview.rows;
  summary = record {
    total_rows = preview.total_rows;
    ready_rows = preview.ready_rows;
    replay_rows = preview.replay_rows;
    invalid_rows = preview.invalid_rows;
  };
}

pub record CommitRowResponse : Type 0 where
  pub row_number : ℕ
  pub external_id : Option Text
  pub status : TransactionImportRowStatus
  pub transaction : Option TransactionResponse
  pub errors : List TransactionImportIssue

pub record CommitSummaryResponse : Type 0 where
  pub total_rows : ℕ
  pub created_rows : ℕ
  pub replayed_rows : ℕ
  pub failed_rows : ℕ

pub record CommitResponse : Type 0 where
  pub rows : List CommitRowResponse
  pub summary : CommitSummaryResponse

abbrev pub commit_row_response : TransactionImportRowResult → CommitRowResponse
commit_row_response row = record {
  row_number = row.row_number;
  external_id = row.external_id;
  status = row.status;
  transaction = when_there transaction_response row.transaction;
  errors = row.issues;
}

abbrev pub commit_response : TransactionImportCommit → CommitResponse
commit_response result = record {
  rows = map commit_row_response result.rows;
  summary = record {
    total_rows = result.total_rows;
    created_rows = result.created_rows;
    replayed_rows = result.replayed_rows;
    failed_rows = result.failed_rows;
  };
}
