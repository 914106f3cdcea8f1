-- ===== src/Store.antt =====
-- The store's settings: its rental policy, its weekly hours and its closures
-- (src/modules/rental-policy, src/modules/store-business-hours, src/modules/store-closure), with the
-- Redis cache in front of the first two (src/libs/redis/redis.service.ts).
pub mod Cache
pub mod Hours
pub mod Closures
pub mod Policy
