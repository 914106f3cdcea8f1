-- ===== src/Lib.antt =====
-- A verification library of the rental back end: a NestJS server that rents camera equipment, with
-- PostgreSQL behind Prisma, Redis as a cache and sockets for administrators.
--
-- An order names products and, where an administrator has chosen them, asset units. It is created as a
-- draft, updated while it is one, confirmed, given units, and cancelled or deleted. Confirmed and
-- later orders block their units from the start to the end and for a turnaround beyond it. An order
-- is checked against the store's business hours, its closures, the booked units and the number of
-- assignable units; its price follows from the products' prices, their tiers and the rental policy.
--
-- Where the parts are modelled:
--   Catalog: products, price tiers, asset units and the queries that orders make
--     (src/modules/products/products.service.ts, src/modules/asset-units/asset-units.service.ts).
--   Store: Cache is src/libs/redis/redis.service.ts, Hours is
--     src/modules/store-business-hours/store-business-hours.service.ts, Closures is
--     src/modules/store-closure/store-closure.service.ts, Policy is
--     src/modules/rental-policy/rental-policy.service.ts.
--   SearchText: src/libs/utils/search-text.util.ts.
--   World: the state that all services share: tables, cached keys, messages sent, locks, the time of
--     the call and the next id. World.Frames: actions that write no order.
--   Orders.Service: src/modules/rental-orders/rental-orders.service.ts, one module per operation;
--     Steps has the private helpers. Orders.Availability, Orders.Booking and Orders.Views:
--     src/modules/rental-orders/services/rental-order-availability.service.ts. Orders.Pricing:
--     rental-order-pricing.service.ts beside it. Orders.Code: generateOrderCode. Orders.Calls: the
--     calls of src/modules/rental-orders/rental-orders.controller.ts that write orders.
--   Auth: src/modules/auth/auth.service.ts (Login, Sessions, Attempts, Passwords),
--     src/modules/auth/services/password-reset-token.service.ts (ResetTokens), the guards and the
--     strategies beside them (Guards). Redis is an interface (Auth.Redis) whose laws are the
--     documented behaviour of its commands, with expiry; Auth.Setup has the other parameters and the
--     state; Auth.Calls the calls of auth.controller.ts and the passing of time.
--   Inventory: the writes of products.service.ts (Products) and asset-units.service.ts (Units), the
--     bodies of their requests and what both share (Requests), the price tiers that are written
--     (Tiers), and the calls of the two controllers (Calls). Rows, Prices, Writes, Checks and ReadBack
--     have the lemmas on unique texts, tiers, writes, the services' checks and rows read back. A column's
--     `@unique` is a check of the insert or the update that fails in an unexpected way.
--     Requested says what a request asks of a row, Calls.Answers what an answer is: a row as the include
--     of the query reads it back, which toProductOut and toAssetUnitOut copy column by column.
--   Orders.Availability.Served says of the tables when they can serve a request, and Accepted what the
--     whole check has found; Catalog.Tiers.Rate says of the list of tiers what a day costs.
--   Orders.Lifecycle: the life of an order, apart from the code: the moves of a status, how a row may
--     evolve and how the table does. Writes says what a call may do to the tables of orders and of
--     histories, Changes and Drafts show it of each call, Refined and Audit draw the consequences.
--   Orders.Pricing.Rates: the price of a unit described by the days and by the tiers.
--   Orders.Listing and Orders.Output: the list of orders, one order, and what is answered of them, with
--     the columns that only the database fills, the printing of decimals and the collation of codes as
--     parameters.
--   Orders.Bookings: what it means that no unit is booked twice, and each operation's proof.
--   Prelude, Result, Exec: shared helpers, failures as values, and actions on a state that return or
--     throw. Examples: concrete inputs.
--
-- Operations are named as in the source, in this language's spelling: createRentalOrder is
-- create_rental_order. An action takes the world and gives a result and the world after it; a throw
-- keeps what was written before it, except that a transaction puts the orders' tables back.
--
-- Conventions and bounds: ids are UUIDs, of which the code tests equality and by which it orders,
-- and are modelled by their values; a date is its milliseconds since the epoch; money is in
-- hundredths. Fuel stands only in the printing of an order's number, with the number plus one,
-- which is more than its digits. Loops are structural. The parts of a Promise.all run in the order
-- in which they are written. What is not under this repository is a parameter: the wall clock's
-- time zone, Unicode normalisation, the database's collation of names, which Redis calls fail; and
-- for Auth the Redis server, bcrypt, the signing and the check of JWTs, HMAC, random bytes, and
-- whether the mail service takes a mail.
--
-- Not modelled: the interleaving of two calls (a call runs to its end before the next begins), the
-- uniqueness of codes in the database, the listing of products and units and the printing of their answers,
-- Redis calls that throw during auth, cookies and the parsing of durations, the administration of
-- customers, users and roles, mail, sockets beyond the messages sent, queues and configuration.
pub mod Prelude
pub mod Result
pub mod Exec
pub mod Catalog
pub mod Store
pub mod SearchText
pub mod World
pub mod Auth
pub mod Orders
pub mod Inventory
pub mod Examples
