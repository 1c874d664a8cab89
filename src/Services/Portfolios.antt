-- ===== src/Services/Portfolios.antt =====
-- `PortfolioService` of application/services.py over the in-memory store.
use portfolio_analytics_api.Services.Transactions.{require_owned}
use portfolio_analytics_api.Common.Text.{strip, upper, Text}
use portfolio_analytics_api.Domain.Models.{Portfolio, Uuid}
use portfolio_analytics_api.Common.{ℕ, List, []}
pub mod Listing
use portfolio_analytics_api.Memory.{
  portfolios_add, portfolios_count, portfolios_list, portfolios_get, Action, ◌>>=◌, ◌>>◌, pure,
  lift,
}

pub record PortfolioPage : Type 0 where
  pub items : List Portfolio
  pub total : ℕ
  pub limit : ℕ
  pub offset : ℕ

unfoldable pub create_portfolio : Uuid → Text → Text → Uuid → Action Portfolio
create_portfolio owner_id name base_currency id = do
  let portfolio : Portfolio = record {
    id = id;
    owner_id = owner_id;
    name = name;
    base_currency = upper (strip base_currency);
    transactions = [];
  }
  portfolios_add portfolio
  pure portfolio

unfoldable pub get_portfolio : Uuid → Uuid → Action Portfolio
get_portfolio owner_id portfolio_id = do
  portfolio ← portfolios_get portfolio_id
  require_owned owner_id portfolio_id portfolio

unfoldable pub list_portfolios : Uuid → ℕ → ℕ → Action PortfolioPage
list_portfolios owner_id limit offset = do
  items ← portfolios_list owner_id limit offset
  total ← portfolios_count owner_id
  pure (record { items = items; total = total; limit = limit; offset = offset })
