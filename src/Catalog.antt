-- ===== src/Catalog.antt =====
-- Products with their price tiers, and the physical asset units of a product
-- (src/modules/products, src/modules/asset-units).
mod Tables
pub mod Tiers
pub mod Queries
pub use Tables.*
unfoldable pub use Tables.{is_assignable}
