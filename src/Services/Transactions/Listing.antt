-- ===== src/Services/Transactions/Listing.antt =====
-- `TransactionService.list` and the ownership check of an import.
use portfolio_analytics_api.Services.Transactions.Create.{Owns}
use portfolio_analytics_api.Services.Import.Commit.{assert_owned}
use portfolio_analytics_api.Services.Transactions.{list_transactions}
use portfolio_analytics_api.Memory.{
  get_entry, ledger_of, transactions_list, portfolios_get, InMemoryStore,
}
use portfolio_analytics_api.Domain.Models.{Uuid}
use portfolio_analytics_api.Common.{
  ==→eq, ◌==◌, Bool-cases, Option-cases, ◌≡◌, arith, inr, inl, refl,
}
use portfolio_analytics_api.Errors.{portfolio_not_found, ok, err}

module _ (owner_id pid : Uuid) (s : InMemoryStore) where
  pub list_transactions-owned :
      Owns owner_id pid s → list_transactions owner_id pid s ≡ (ok (ledger_of pid s), s)
  unfolding list_transactions portfolios_get transactions_list
  list_transactions-owned (p, found, own) = ground arith

  pub list_transactions-stranger :
      ¬ (Owns owner_id pid s)
      → list_transactions owner_id pid s ≡ (err (portfolio_not_found pid), s)
  unfolding list_transactions portfolios_get
  list_transactions-stranger h = elim (Option-cases (get_entry pid s.portfolios)) [
    | inl e ↦ rw e refl
    | inr (p, e) ↦ elim (Bool-cases (p.owner_id == owner_id)) [
      | inl same ↦ absurd (h (p, e, ==→eq p.owner_id owner_id same))
      | inr other ↦ rw (e, other) refl
    ]
  ]

  pub assert_owned-owned : (own : Owns owner_id pid s) → assert_owned owner_id pid s ≡ (ok own.0, s)
  unfolding assert_owned portfolios_get
  assert_owned-owned (p, found, own) = ground arith
