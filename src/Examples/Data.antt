-- ===== src/Examples/Data.antt =====
-- A small portfolio: a deposit, a purchase and a partial sale, on three days.
use portfolio_analytics_api.Domain.Valuation.{Prices}
use portfolio_analytics_api.Domain.Quantities.{Dict}
use portfolio_analytics_api.Services.Import.{TransactionImportCandidate}
use portfolio_analytics_api.Errors.{ok, Result}
use portfolio_analytics_api.Services.Payload.{NewTransaction}
use portfolio_analytics_api.Memory.{InMemoryStore}
use portfolio_analytics_api.Common.Int.{pos}
use portfolio_analytics_api.Decimal.{finite, Decimal}
use portfolio_analytics_api.Common.Text.{text, Text}
use portfolio_analytics_api.Common.{Option, ◌+◌, ◌*◌, List, ℕ, ◌∷◌, [], some, none}
use portfolio_analytics_api.Domain.Models.{
  PortfolioValuePoint, PriceBar, Uuid, Position, TransactionType, DateTime, Transaction, Date, buy,
  sell, deposit, aware,
}

abbrev pub apple : Text
apple = text "AAPL"

abbrev pub day : Date → DateTime
day d = aware (d * 86_400_000_000 + 1)

abbrev pub whole : ℕ → Decimal
whole n = finite (pos n) 0

abbrev pub cash_row : ℕ → Text → TransactionType → Date → ℕ → Transaction
cash_row id external type d amount = record {
  portfolio_id = 7;
  external_id = external;
  transaction_type = type;
  occurred_at = day d;
  symbol = none;
  quantity = none;
  unit_price = none;
  cash_amount = some (whole amount);
  fees = whole 0;
  id = id;
  created_at = none;
}

abbrev pub trade_row : ℕ → Text → TransactionType → Date → ℕ → ℕ → Transaction
trade_row id external type d amount price = record {
  portfolio_id = 7;
  external_id = external;
  transaction_type = type;
  occurred_at = day d;
  symbol = some apple;
  quantity = some (whole amount);
  unit_price = some (whole price);
  cash_amount = none;
  fees = whole 1;
  id = id;
  created_at = none;
}

abbrev pub paid_in : Transaction
paid_in = cash_row 1 (text "d1") deposit 10 1000

abbrev pub bought : Transaction
bought = trade_row 2 (text "b1") buy 11 10 50

abbrev pub sold : Transaction
sold = trade_row 3 (text "s1") sell 12 4 60

abbrev pub oversold : Transaction
oversold = trade_row 4 (text "s2") sell 12 40 60

-- As read from a store that does not sort.
abbrev pub ledger : List Transaction
ledger = sold ∷ paid_in ∷ bought ∷ []

abbrev pub left_over : List Position
left_over = record { symbol = apple; quantity = whole 6 } ∷ []

-- The owner 1 has the portfolio 7, which is empty.
abbrev pub opened : InMemoryStore
opened = record {
  users = [];
  analysis_snapshots = [];
  portfolios =
      (
        7,
        record {
          id = 7;
          owner_id = 1;
          name = text "Main";
          base_currency = text "USD";
          transactions = [];
        },
      )
      ∷ [];
  transactions = [];
}

abbrev pub new_deposit : NewTransaction
new_deposit = record {
  external_id = text " d1 ";
  transaction_type = deposit;
  occurred_at = day 10;
  symbol = none;
  quantity = none;
  unit_price = none;
  cash_amount = some (whole 1000);
  fees = whole 0;
}

-- The deposit as it is stored: trimmed, and with eight decimals.
abbrev pub stored_deposit : Transaction
stored_deposit = record {
  portfolio_id = 7;
  external_id = text "d1";
  transaction_type = deposit;
  occurred_at = day 10;
  symbol = none;
  quantity = none;
  unit_price = none;
  cash_amount = some (finite (pos 100_000_000_000) 8);
  fees = finite (pos 0) 8;
  id = 30;
  created_at = some (day 20);
}

abbrev pub paid : InMemoryStore
paid = record opened { transactions = stored_deposit ∷ [] }

abbrev pub candidate : ℕ → Option NewTransaction → TransactionImportCandidate
candidate n new = record { row_number = n; external_id = none; new_transaction = new; issues = [] }

-- A document with the deposit twice and a row that could not be read.
abbrev pub read_document : List ℕ → Result (List TransactionImportCandidate)
read_document bytes =
    ok (candidate 1 (some new_deposit) ∷ candidate 2 (some new_deposit) ∷ candidate 3 none ∷ [])

abbrev pub drawn : ℕ → Uuid × DateTime
drawn n = (30 + n, day 20)

abbrev pub bar : Date → ℕ → PriceBar
bar d price = record { symbol = apple; date = d; adjusted_close = whole price }

abbrev pub bars : Dict (List PriceBar)
bars = (apple, bar 10 48 ∷ bar 11 50 ∷ bar 12 55 ∷ []) ∷ []

abbrev pub prices : Dict Prices
prices = (apple, (10, whole 48) ∷ (11, whole 50) ∷ (12, whole 55) ∷ []) ∷ []

abbrev pub point : Date → ℕ → ℕ → ℕ → PortfolioValuePoint
point d total cash flow = record {
  date = d;
  total_value = whole total;
  cash_balance = whole cash;
  net_external_flow = whole flow;
}

-- A deposit of 1000, ten shares for 501, and four of them sold for 239.
abbrev pub points : List PortfolioValuePoint
points = point 10 1000 1000 1000 ∷ point 11 999 499 0 ∷ point 12 1068 738 0 ∷ []

abbrev pub in_order : List Transaction
in_order = paid_in ∷ bought ∷ sold ∷ []
