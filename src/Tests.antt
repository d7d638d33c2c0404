-- ===== src/Tests.antt =====
-- Concrete data, and the theorems of the library at it.
mod Data
mod Balances
mod Templates
mod Limits
mod Postings
mod Codes
mod Keys
mod Sets
mod Dags
mod Worlds
mod Dates
