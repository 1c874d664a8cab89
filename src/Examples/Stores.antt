-- ===== src/Examples/Stores.antt =====
-- Runs of application/services.py over the in-memory store, and its theorems at a small store.
use portfolio_analytics_api.Services.Accounts.Login.{register-login}
use portfolio_analytics_api.Services.Portfolios.Listing.{
  list_portfolios_pages, create_portfolio-listed,
}
use portfolio_analytics_api.Services.Portfolios.{
  list_portfolios, get_portfolio, PortfolioPage, create_portfolio,
}
use portfolio_analytics_api.Domain.Models.{Portfolio, User}
use portfolio_analytics_api.Services.Accounts.{
  issue_token, authenticate, login, AccessTokenService, PasswordHasher, register,
}
use portfolio_analytics_api.Memory.{
  portfolios_add, users_add, users_get_by_email, users_get, portfolios_of, InMemoryStore, ledger_of,
  transactions_get_by_external_id, transactions_add, transactions_list, portfolios_get,
  portfolios_get_for_update,
}
use portfolio_analytics_api.Services.Payload.{
  same_transaction_payload, quantize_exact, build_transaction,
}
use portfolio_analytics_api.Decimal.{
  quantize, eq, le, lt, negate, div, mul, sub, add, nonzero, not_above_zero, below_zero, is_finite,
}
use portfolio_analytics_api.Services.Import.Agreement.{commit-preview, Promises, preview-unchanged}
use portfolio_analytics_api.Errors.{invalid_access_token, portfolio_not_found, err, ok}
use portfolio_analytics_api.Common.Text.{
  lower, text, text_eq, upper, is_space, strip_left, strip, is_blank,
}
use portfolio_analytics_api.Services.Transactions.Create.{
  create-retry, create-err, create-IsValidStore,
}
use portfolio_analytics_api.Common.Sort.{sort_by}
use portfolio_analytics_api.Services.Import.{invalid, replay, ready, import_row_result}
use portfolio_analytics_api.Examples.Data.{
  stored_deposit, paid, candidate, drawn, day, read_document, new_deposit, opened,
}
use portfolio_analytics_api.Services.Import.Commit.{commit, TransactionImportCommit}
use portfolio_analytics_api.Services.Import.Preview.{TransactionImportPreview, preview}
use portfolio_analytics_api.Services.Transactions.{record_transaction, create}
use portfolio_analytics_api.Services.Transactions.Invariant.{IsValidStore}
use portfolio_analytics_api.Domain.Holdings.{ledger_step, derive_positions, validate_transaction}
use portfolio_analytics_api.Common.{
  ◌==◌, All, ◌+◌, ◌++◌, ◌≡◌, ◌∷◌, [], some, none, false, true, refl,
}

services : Unit {0}
unfolding mathlib.Core.Bool.xor validate_transaction derive_positions ledger_step sort_by is_blank
    strip strip_left is_space upper is_finite below_zero not_above_zero nonzero add sub mul div
    negate lt le eq create record_transaction build_transaction quantize_exact quantize
    same_transaction_payload portfolios_get_for_update portfolios_get transactions_list
    transactions_add transactions_get_by_external_id ledger_of preview commit register login
    authenticate users_get users_get_by_email users_add lower create_portfolio portfolios_add
services = tt

opened-IsValidStore : IsValidStore opened
unfolding services
opened-IsValidStore = record { well_formed = tt; unique = tt; derivable = λ pid. ([], refl) }

create-deposit :
    create 1 7 new_deposit 30 (day 20) opened
    ≡ (ok (record { transaction = stored_deposit; created = true }), paid)
unfolding services
create-deposit = refl

create-IsValidStore_example : IsValidStore (create 1 7 new_deposit 30 (day 20) opened).1
create-IsValidStore_example =
    create-IsValidStore 1 7 new_deposit 30 (day 20) opened opened-IsValidStore

create-retry_example :
    create 1 7 new_deposit 31 (day 21) paid
    ≡ (ok (record { transaction = stored_deposit; created = false }), paid)
create-retry_example =
    create-retry 1 7 new_deposit 30 31 (day 20) (day 21) opened paid
      (record { transaction = stored_deposit; created = true }) refl create-deposit

create-by_stranger : (create 2 7 new_deposit 30 (day 20) opened).0 ≡ err (portfolio_not_found 7)
unfolding services
create-by_stranger = refl

create-err_example : (create 2 7 new_deposit 30 (day 20) opened).1 ≡ opened
create-err_example =
    create-err 2 7 new_deposit 30 (day 20) opened (portfolio_not_found 7) create-by_stranger

preview-unchanged_example : (preview read_document drawn 1 7 [] opened).1 ≡ opened
preview-unchanged_example = preview-unchanged read_document drawn 1 7 [] opened

abbrev foretold : TransactionImportPreview
foretold = record {
  rows =
      import_row_result (candidate 1 (some new_deposit)) ready (some stored_deposit) []
      ∷ import_row_result (candidate 2 (some new_deposit)) replay (some stored_deposit) []
      ∷ import_row_result (candidate 3 none) invalid none []
      ∷ [];
  total_rows = 3;
  ready_rows = 1;
  replay_rows = 1;
  invalid_rows = 1;
}

preview-document : (preview read_document drawn 1 7 [] opened).0 ≡ ok foretold
unfolding services
preview-document = refl

commit-preview_example :
    (c : TransactionImportCommit) × ((commit read_document drawn 1 7 [] opened).0 ≡ ok c)
    × Promises foretold c
commit-preview_example =
    commit-preview read_document drawn 1 7 [] opened foretold opened-IsValidStore preview-document

-- A hasher and a token service that write their argument out.
abbrev pub plain_hasher : PasswordHasher
plain_hasher = record { hash = λ p. p; verify = text_eq }

abbrev pub plain_tokens : AccessTokenService
plain_tokens = record {
  expires_in_seconds = 900;
  issue = λ id. id ∷ [];
  verify_token = λ token. elim token [ [] ↦ err invalid_access_token | id ∷ _ ↦ ok id ];
}

abbrev pub ada : User
ada = record { id = 5; email = text "ada@x.org"; password_hash = text "secret" }

register-run :
    register plain_hasher (text " Ada@x.org") (text "secret") 5 opened
    ≡ (ok ada, record opened { users = (5, ada) ∷ [] })
unfolding services
register-run = refl

register-login_example :
    (login plain_hasher plain_tokens
        (text "ADA@x.org ")
        (text "secret")
        (record opened { users = (5, ada) ∷ [] })
      ≡ (ok (issue_token plain_tokens ada), record opened { users = (5, ada) ∷ [] }))
    × (authenticate plain_tokens
          (issue_token plain_tokens ada).value
          (record opened { users = (5, ada) ∷ [] })
        ≡ (ok ada, record opened { users = (5, ada) ∷ [] }))
unfolding services
register-login_example =
    register-login plain_hasher plain_tokens (text " Ada@x.org") (text "ADA@x.org ") (text "secret")
      5 opened (record opened { users = (5, ada) ∷ [] }) ada refl (λ u. refl) refl register-run

abbrev growth : Portfolio
growth = record {
  id = 8;
  owner_id = 1;
  name = text "Growth";
  base_currency = text "EUR";
  transactions = [];
}

abbrev grown : InMemoryStore
grown = record opened { portfolios = opened.portfolios ++ (8, growth) ∷ [] }

create_portfolio-run :
    create_portfolio 1 (text "Growth") (text "eur ") 8 opened ≡ (ok growth, grown)
unfolding services
create_portfolio-run = refl

create_portfolio-listed_example :
    (portfolios_of 1 grown ≡ growth ∷ portfolios_of 1 opened)
    × (portfolios_of 2 grown ≡ portfolios_of 2 opened)
    × (get_portfolio 1 8 grown ≡ (ok growth, grown))
create_portfolio-listed_example =
    create_portfolio-listed 1 2 (text "Growth") (text "eur ") 8 opened grown growth refl
      create_portfolio-run

list_portfolios_pages_example :
    (a b whole : PortfolioPage) × (list_portfolios 1 1 0 grown ≡ (ok a, grown))
    × (list_portfolios 1 1 (0 + 1) grown ≡ (ok b, grown))
    × (list_portfolios 1 (1 + 1) 0 grown ≡ (ok whole, grown))
    × (whole.items ≡ a.items ++ b.items)
    × (whole.total ≡ a.total)
    × (b.total ≡ a.total)
    × All (λ p. (p.owner_id == 1) ≡ true) a.items
list_portfolios_pages_example = list_portfolios_pages 1 grown 1 1 0
