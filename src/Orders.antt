-- ===== src/Orders.antt =====
-- Rental orders (src/modules/rental-orders).
mod Tables
pub mod Pricing
pub mod Booking
pub mod Code
pub mod Availability
pub mod Service
pub mod Bookings
pub mod Calls
pub mod Lifecycle
pub mod Output
pub mod Listing
pub mod Locks
pub mod Views
pub use Tables.*
unfoldable pub use Tables.{status_in}
