-- ===== src/Store.antt =====
-- The tables that the processes share (src/shared/sqlite.ts), one module for each family of
-- operations. A table is the list of its rows in the order of their primary key.
pub mod Messages
pub mod Consumers
pub mod Numbers
pub mod Outbox
pub mod Recalls
pub mod Delivery
pub mod Registry
