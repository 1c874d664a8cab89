-- ===== src/Api.antt =====
-- The HTTP API: the documents of requests and responses, the CSV reader of imports, and the routes
-- over the services, the limiter and the store.
pub mod Schemas
pub mod Csv
pub mod Responses
pub mod Guards
pub mod Accounts
pub mod Routes
pub mod Isolation
pub mod Handlers
