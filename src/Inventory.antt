-- ===== src/Inventory.antt =====
-- The writes of products and asset units: src/modules/products/products.service.ts and
-- src/modules/asset-units/asset-units.service.ts.
pub mod Requests
pub mod Tiers
pub mod Products
pub mod Units
pub mod Rows
pub mod Prices
pub mod Writes
pub mod Checks
pub mod ReadBack
pub mod Requested
pub mod Calls
