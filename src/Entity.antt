-- ===== src/Entity.antt =====
-- internal/entity: the data of the program, its requests and responses, their validation and the
-- errors that the services return.
pub mod Error
pub mod Customer
pub mod CreditLimit
pub mod Asset
pub mod Transaction
pub mod Validation
