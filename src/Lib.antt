-- ===== src/Lib.antt =====
-- A verification library for kredit-plus, a consumer credit service: customers with identity
-- documents, assets for sale, credit limits per customer and tenor, and purchases of an asset in
-- monthly installments that use a limit.
--
-- The program is in layers. A handler (internal/handler) parses a request and calls a service
-- (internal/service), which validates, applies the business rules and calls repositories
-- (internal/repository). A repository reads and writes MySQL by gorm, in a transaction where it
-- writes (infra/mysql/client.go), and keeps customers and assets in Redis (infra/redis/client.go)
-- under the keys of cacher/cache_key.go. The structs, the validations and the errors of all of them
-- are in internal/entity.
--
-- Which file models which part:
--   Base          numbers, integers (Go's int is a 64-bit integer, `wrap64`), lists
--   Float         float64: exact binary fractions of 53 bits, in units of 2^-1074
--   Time          time.Time in UTC, and AddDate(0, 1, 0)
--   Entity        internal/entity: one file per Go file; Error holds the errors of all
--   Platform      the outside: Table says what gorm does with a table, Redis what the cache does,
--                 World is the state and the record of all external functions, Laws what is relied
--                 on, Monad the calls that read and write the state and may fail
--   Cacher        cacher/cache_key.go
--   Repository    internal/repository: one file per Go file; Cached is the read through the cache
--                 that GetByID and GetByNIK write out alike
--   Service       internal/service: one file per Go file; Gathering holds the goroutines by which a
--                 purchase reads
--   Invariant     the rules on credit limits and on contract numbers, over any sequence of calls
--   Concurrent    requests that run at the same time, as sequences of the repositories' methods
--   Strconv       strconv.Atoi, by which a request's numbers are read
--   Response      utils/response_formatter/http.go
--   Handler       internal/handler: one file per Go file; Routes holds the routes of all
--                 (RegisterRoutes); customErrorHandler of cmd/main.go is beside what they share
--   Startup       what cmd/main.go does around the service: config/config.go, infra/logger,
--                 infra/mysql (but for Transaction, which is in Platform.Monad), opening and closing of
--                 infra/redis, infra/telemetry, wire/wire_gen.go, and main itself
--   Tests         a platform held in memory that meets the laws, and concrete runs
-- Under a module, Effects says which methods leave the tables alone and which do so when they fail;
-- the other child modules are named for what they prove.
--
-- State and operations: `World` holds the rows of the six tables, the entries of the cache and the
-- number of external calls made so far. A method is a function from its arguments and the world to a
-- result, a value or an error, and the next world. Each external call is given its number, so the
-- platform may answer the same call differently at each time: any call may fail. A transaction that
-- fails leaves the tables as they were. A Go error is a value of `Error`, with the text and the
-- cause that `fmt.Errorf` gives it. A panic is an error; so is that of `make` for a negative tenor, which
-- the validation of an order keeps away.
--
-- External code is the record `Platform`: tables (gorm and MySQL), Redis, JSON, the validator, the
-- clock, UUIDs and number formats. `IsPlatform` names what the theorems rely on: First gives a row
-- of the table that matches, and none only where none does; a first page is empty only where no row
-- matches; Create refuses a key that a row has; Create, Save, Update and Delete change the rows that
-- they are given; what a row keeps of the values of its columns; rounding to a column keeps the
-- order; each goroutine is scheduled once. A theorem that a request succeeds names in addition which
-- statements the database answers while its tables are as they are (`Answers`, `SaleAnswers`): an insert
-- only where the rows that its foreign keys name stand and the columns take its amounts.
--
-- A handler is a function from a request and the world to a reply and the next world. Of a request
-- it sees the parameters of the path, the query and the body; a reply is a response with a status,
-- the body of the error handler, or nothing, where the program panics. fiber, uuid.Parse, ParseFloat,
-- Quote and encoding/json are the record `Http`, of which nothing is assumed but what a theorem names.
--
-- The four goroutines of a purchase read in the order that the platform's scheduler gives, in which each
-- stands once; a read is done as a whole. Their channels and the wait group are a step relation, in
-- which any goroutine may go on at any time. The counter of the wait group is a number of its own, apart
-- from the goroutines; a Done below zero and a value sent on a closed channel are panics.
--
-- `main` is a function from a `Host`, the answers of viper, zap, the drivers, fiber and the signals, to
-- the way in which the process ends and the list of what it did. `defer` puts a call on a stack, which is
-- worked off where main returns; `logger.Fatal` ends the process at once.
--
-- Loops: the installment loop is recursion on the number of rounds that are left, which starts at
-- the tenor, and Atoi goes through its text; no fuel is used anywhere.
--
-- Not modelled: how fiber reads a path, which is a parameter (a theorem on requests
-- is about any method that is called with any request); the entries that the services and the
-- repositories write to the log, and tracing, of which nothing is read back; the SQL migrations; the
-- lifetime of a cache entry (an entry may be missing at any time, since a read of the cache may fail at
-- any time); what json.Unmarshal leaves in the struct where an entry does not decode, which First would
-- take as a further condition (the entries are the program's own encodings); requests that meet inside
-- one transaction of the database. The struct fields for associations that no query loads are left out.
pub mod Base
pub mod Float
pub mod Time
pub mod Strconv
pub mod Entity
pub mod Platform
pub mod Cacher
pub mod Repository
pub mod Service
pub mod Invariant
pub mod Concurrent
pub mod Response
pub mod Handler
pub mod Startup
pub mod Tests
