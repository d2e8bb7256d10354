-- ===== src/Service.antt =====
-- internal/service: the rules of the program, over the repositories. The log lines have no effect on
-- the result and are left out.
pub mod CreditLimit
pub mod Asset
pub mod Customer
pub mod Gathering
pub mod Transaction
pub mod Reads
