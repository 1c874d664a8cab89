-- ===== src/Domain.antt =====
-- The domain layer, domain/*.py.
pub mod Models
pub mod Quantities
pub mod Holdings
pub mod Valuation
pub mod Floats
pub mod Insights
pub mod Analytics
