-- ===== src/Inventory/Calls/Stored.antt =====
-- What a call answers is what the database then holds, and what the request asked for.
use rental_be_nest.World.{World}
