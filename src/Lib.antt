-- ===== src/Lib.antt =====
-- A portfolio analytics API: the ledger of a portfolio, its positions and its daily valuation, the
-- services that record and import transactions and analyse them, the market data that they use,
-- and the HTTP routes with their limits.
--
-- Parts and files (paths from src/portfolio_analytics_api):
--   domain/models.py: Domain/Models. Dataclasses are records; an instant is a number of UTC
--     microseconds with or without a zone, a date a day number, a UUID a number whose order is that
--     of its hexadecimal text, a float a bit pattern.
--   domain/holdings.py: Domain/Holdings (`validate_transaction`, `derive_positions`), with the
--     dictionary of quantities in Domain/Quantities. The proofs are in its child modules:
--     Validation, Replay (the balance of one symbol), Positions, Resorting.
--   domain/valuation.py: Domain/Valuation (symbols, prices, one transaction) and
--     Domain/Valuation/Build (the loop over market dates). `transaction_index` is the rest of the
--     ledger that is still to be applied. Proofs: Cash and Funds (one transaction), Quotes (the prices
--     carried forward), Dates (the market dates), Points (one day), Days and Booked (all days),
--     Lookahead, Conclusion (after the loop) and Outcome (the whole function).
--   domain/analytics.py and domain/insights.py: Domain/Analytics and Domain/Insights, over the
--     float operations and formats that Domain/Floats names. Proofs: Insights/Risk, Analytics/Series.
--   application/errors.py and the exceptions of the domain: Errors. An exception is a constructor
--     of `Error`, a message a constructor with the values that it prints.
--   infrastructure/memory.py: Memory. An operation of a repository takes the store and returns a
--     result and the store; a dictionary is an association list in the order of insertion.
--   application/services.py: Services/Payload (`_build_transaction`, `_quantize_exact`,
--     `_same_transaction_payload`), Services/Transactions (`TransactionService`), Services/Import
--     (`TransactionImportService`), Services/Accounts (`AuthenticationService`),
--     Services/Portfolios (`PortfolioService`), Services/Analytics (`PortfolioAnalyticsService`)
--     and Services/Insights (`PortfolioInsightService`). Proofs: Transactions/Invariant, Redraw,
--     Create, Listing; Import/Simulation, Rows, Lockstep, Agreement; Accounts/Login;
--     Portfolios/Listing; Insights/Generated.
--   infrastructure/market_data/resilience.py: MarketData/Retries, the retry loop without its time
--     limit.
--   infrastructure/market_data/twelve_data_provider.py: MarketData/TwelveData, over the documents of
--     MarketData/Json. Proofs: Normalized, Refused. MarketData/Series says what a series of bars is.
--   The fake provider and the fake generator of infrastructure/memory.py: MarketData/Fakes.
--   infrastructure/market_data/cache.py: MarketData/Cache. A state of the cache server is passed
--     along; reads and writes that fail are `none` and `false`. Proofs: Codec (the stored payload),
--     Behaviour (one call), Hits (two calls).
--   infrastructure/rate_limit.py, api/rate_limit.py and `RateLimitRule`: RateLimit, the script over
--     the commands of Redis. Proofs: Counting.
--   infrastructure/insights: InsightAdapters, the document of an insight's input, the answers of
--     DeepSeek and the cached generator. Proofs: Cached.
--   infrastructure/auth.py: Tokens, with its proofs in Lifetime.
--   api/schemas.py: Api/Schemas (the transaction that a client sends) and Api/Responses.
--   api/csv_import.py: Api/Csv. Proofs: Headers, Rows, Documents.
--   api/auth_routes.py and api/routes.py: Api/Guards (limits before a service), Api/Accounts and
--     Api/Routes; the exception handlers of api/app.py: Api/Handlers. Proofs: Accounts/Attempts (the
--     passwords that can be tried) and Isolation (portfolios of other users).
--   Decimal models Python's `decimal.Decimal` in the default context: a coefficient over a power of
--     ten, infinities and a NaN, sums, products and quotients rounded half-even to 28 digits.
--     Common has lists, texts, integers and a stable `sorted`. Examples has concrete ledgers,
--     stores, prices, documents and servers, and the theorems at them.
--
-- A service reads the store through the repositories, validates and replays with the functions of
-- the domain, and writes at most one row for each call. `preview` works on a copy of the ledger;
-- `commit` calls `TransactionService.create` once for each row. A route finds its user by the token,
-- asks the limiter, and only then runs the service; it changes the limiter's state and the store.
--
-- Identifiers and the clock are arguments; in an import one sequence gives both, as the source
-- asks for both once for each row that it builds. So are the operations on floats, the password
-- hasher, PyJWT, the HTTP client, Redis, the optional insight generator, the search for
-- transaction language, pydantic, `csv.reader`, and the texts of dates, decimals and JSON. What a
-- theorem needs of them is a record of laws: `IsFaithful` and `IsUp` of the cache, `IsCounting` of
-- Redis while no counter expires, `IsPydantic`, `IsJwt`. The loops recurse on their lists. The digits
-- of a number are counted on fuel, the number itself, which is never less than its digits are.
--
-- Texts are lists of code points; `strip` knows Python's whole list of white space, `upper` and
-- `lower` change ASCII letters only. Exponents of decimals have no bound. The in-memory unit of
-- work has no rollback and no lock; each operation runs to its end before the next one.
--
-- Not modelled: the SQL repositories (declarations and queries of SQLAlchemy), the password
-- hasher, which only calls pwdlib, the yfinance adapter and the metrics around the providers,
-- configuration, logging and process set-up, migrations, benchmarks and the demo scripts. Of the
-- routes, what FastAPI and pydantic do by declaration; of an error response, the message and the
-- headers.
pub mod Common
pub mod Decimal
pub mod Errors
pub mod Domain
pub mod Memory
pub mod Services
pub mod MarketData
pub mod RateLimit
pub mod Api
pub mod Tokens
pub mod InsightAdapters
mod Examples
