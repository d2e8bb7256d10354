-- ===== src/Repository.antt =====
-- internal/repository: the methods over the tables and the cache. The spans and the log lines have
-- no effect on the result and are left out.
pub mod CreditLimit
pub mod Transaction
pub mod Cached
pub mod Asset
pub mod Customer
