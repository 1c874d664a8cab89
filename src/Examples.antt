-- ===== src/Examples.antt =====
-- Concrete data, runs on it, and the theorems at it.
pub mod Data
mod Formats
mod Market
mod Limits
mod Imports
mod Routes
mod Generators
mod Tokens
mod Ledgers
mod Stores
mod Valuations
mod Analyses
