-- ===== src/Services.antt =====
-- The application layer, application/services.py.
pub mod Payload
pub mod Transactions
pub mod Import
pub mod Accounts
pub mod Portfolios
pub mod Analytics
pub mod Insights
