-- ===== src/Startup.antt =====
-- What cmd/main.go does around the service: it reads the configuration, builds the logger, opens the
-- database and the cache, wires the handlers, listens, and stops on a signal.
pub mod Attempts
pub mod Config
pub mod Logger
pub mod QueryLog
pub mod Mysql
pub mod Redis
pub mod Telemetry
pub mod Wiring
pub mod Main
pub mod Ready
pub mod Serving
pub mod Release
