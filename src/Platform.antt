-- ===== src/Platform.antt =====
-- What the program runs on: gorm and MySQL (through infra/mysql), go-redis (through infra/redis),
-- the validator, JSON, the clock and the source of identifiers. None of it is under the
-- repository, so each is a parameter, with its documented behaviour as named laws.
pub mod Table
pub mod Redis
pub mod World
pub mod Laws
pub mod Monad
