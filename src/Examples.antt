-- ===== src/Examples.antt =====
-- Concrete inputs, and the theorems at them.
mod Data
mod Calls
mod Checks
mod Prices
mod Settings
mod Memory
mod Accounts
mod Stock
mod Listing
