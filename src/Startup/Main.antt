-- ===== src/Startup/Main.antt =====
-- `main` of cmd/main.go. What it does is a list of events; what is deferred is done when `main`
-- returns or panics, and not where `logger.Fatal` ends the process. zap, viper, the drivers and fiber
-- are parameters.
use kredit_plus.Base.{ℤ, List, [], ◌∷◌, ◌++◌, String, append, Option, none, some}
use kredit_plus.Entity.Error.{Error, error_text}
use kredit_plus.Platform.Table.{Result, ok, err}
use kredit_plus.Startup.Config as Config
use kredit_plus.Startup.Logger as Logger
use kredit_plus.Startup.Mysql as Mysql
use kredit_plus.Startup.Redis as Redis
use kredit_plus.Startup.Wiring.{
  Wired, asset_handler, customer_handler, credit_limit_handler, transaction_handler,
  initialize_asset_handler, initialize_customer_handler, initialize_credit_limit_handler,
  initialize_transaction_handler,
}

-- what `main` holds while it runs
pub data Resource : Type 0 where
  log_buffer : Resource
  database : Mysql.Client → Resource
  cache : Redis.Client → Resource

pub data Event : Type 0 where
  opened : Resource → Event
  -- `Sync` of the logger, `Close` of a client
  closed : Resource → Event
  -- the origins and the methods that cors allows
  allowed : String → String → Event
  registered : Wired → Event
  -- `app.Listen` in its goroutine
  listened : String → Event
  logged : Logger.Level → String → Option Error → Event
  shut_down : Event

-- how the process ends
pub data Ending : Type 0 where
  panicked : String → Ending
  -- `os.Exit(1)`
  exited : Ending
  returned : Ending

-- What wakes the process that serves: its listener fails, or a signal comes.
pub data Wake : Type 0 where
  listener_failed : Error → Wake
  signalled : Wake

pub record Host : Type 0 where
  pub viper : Config.Viper
  pub zap : Logger.Zap
  pub mysql : Mysql.Driver
  pub redis : Redis.Driver
  -- `%d`
  pub int_text : ℤ → String
  pub wake : Wake
  -- `app.Shutdown`
  pub shutdown : Option Error

-- the events so far, and what is deferred, the last one first
pub record Process : Type 0 where
  pub events : List Event
  pub deferred : List Resource

pub data Flow (A : Type 0) : Type 0 where
  goes_on : A → Flow A
  stops : Ending → Flow A

abbrev pub Run : Type 0 → Type 0
Run A = Process → Flow A × Process

infixl 5 ◌>>=◌ ◌>>◌
unfoldable pub ◌>>=◌ : {A B : Type 0} → Run A → (A → Run B) → Run B
◌>>=◌ m f s = let (r, s') = m s in elim r [ goes_on a ↦ f a s' | stops e ↦ (stops e, s') ]

unfoldable pub ◌>>◌ : {B : Type 0} → Run (Unit {0}) → Run B → Run B
m >> k = m >>= λ _. k

unfoldable pub emit : Event → Run (Unit {0})
emit e s = (goes_on tt, record s { events = s.events ++ e ∷ [] })

-- `defer`, behind the call that gave the resource
unfoldable pub hold : Resource → Run (Unit {0})
hold r s = (goes_on tt, record { events = s.events ++ opened r ∷ []; deferred = r ∷ s.deferred })

-- `if err != nil { panic(fmt.Sprintf("text: %v", err)) }`
unfoldable pub or_panic : {A : Type 0} → String → Result A → Run A
or_panic text (ok a) s = (goes_on a, s)
or_panic text (err e) s = (stops (panicked (append text (append ": " (error_text e)))), s)

-- `logger.Fatal`
unfoldable pub fatal : {A : Type 0} → String → Error → Run A
fatal text e s =
    (stops exited, record s { events = s.events ++ logged Logger.fatal_level text (some e) ∷ [] })

-- `if err != nil { logger.Fatal(text, zap.Error(err)) }`
unfoldable pub or_fatal : {A : Type 0} → String → Result A → Run A
or_fatal text (ok a) s = (goes_on a, s)
or_fatal text (err e) s = fatal text e s

-- the conversions `loggerPkg.Config(cfg.Logger)`, `mysql.Config(cfg.MySQL)`, `redis.Config(cfg.Redis)`
abbrev pub logger_config : Config.LoggerConfig → Logger.Config
logger_config c = record { level = c.level; environment = c.environment }

abbrev pub mysql_config : Config.MysqlConfig → Mysql.Config
mysql_config c = record {
  host = c.host;
  port = c.port;
  user = c.user;
  password = c.password;
  database = c.database;
  max_open_conns = c.max_open_conns;
  max_idle_conns = c.max_idle_conns;
  max_lifetime = c.max_lifetime;
  debug = c.debug;
}

abbrev pub redis_config : Config.RedisConfig → Redis.Config
redis_config c = record { host = c.host; port = c.port; password = c.password; db = c.db }

-- `fmt.Sprintf(":%d", cfg.App.Port)`
abbrev pub address : (ℤ → String) → Config.Config → String
address int_text cfg = append ":" (int_text cfg.app.port)

module _ (h : Host) where
  -- the part behind `app.Listen` in its goroutine
  unfoldable pub wait_for_signal : Run (Unit {0})
  wait_for_signal = elim h.wake [
    | listener_failed e ↦ fatal "failed to start server" e
    | signalled ↦ do
      emit (logged Logger.info_level "shutting down server..." none)
      emit shut_down
      elim h.shutdown [
        | none ↦ (λ s. (goes_on tt, s))
        | some e ↦ fatal "server forced to shutdown" e
      ]
  ]

  -- the part behind the connections: the handlers are wired and registered
  unfoldable pub start_server :
      Config.Config → Mysql.Client → Redis.Client → Logger.Logger → Run (Unit {0})
  start_server cfg db redis logger = do
    emit (allowed "*" "GET,POST,PUT,DELETE,OPTIONS")
    assets ←
        or_fatal "failed to initialize asset handler" (initialize_asset_handler db redis logger)
    emit (registered (asset_handler assets))
    customers ←
        or_fatal "failed to initialize customer handler"
          (initialize_customer_handler db redis logger)
    emit (registered (customer_handler customers))
    limits ←
        or_fatal "failed to initialize credit limit handler"
          (initialize_credit_limit_handler db redis logger)
    emit (registered (credit_limit_handler limits))
    transactions ←
        or_fatal "failed to initialize transaction handler"
          (initialize_transaction_handler db redis logger)
    emit (registered (transaction_handler transactions))
    emit (listened (address h.int_text cfg))

  unfoldable pub main : Run (Unit {0})
  main = do
    cfg ← or_panic "failed to load config" (Config.load h.viper)
    logger ← or_panic "failed to create logger" (Logger.new_logger h.zap (logger_config cfg.logger))
    hold log_buffer
    db ←
        or_fatal "failed to connect to database"
          (Mysql.new_client h.mysql (mysql_config cfg.mysql) logger 0)
    hold (database db)
    redis ←
        or_fatal "failed to connect to redis"
          (Redis.new_client h.redis (redis_config cfg.redis) logger 0)
    hold (cache redis)
    start_server cfg db redis logger
    wait_for_signal

-- the deferred calls; their errors are dropped
abbrev pub released : List Resource → List Event
released [] = []
released (r ∷ rs) = closed r ∷ released rs

-- the end of the process: only where `logger.Fatal` ends it, nothing deferred is done
unfoldable pub finish : Flow (Unit {0}) × Process → Ending × List Event
finish (goes_on u, s) = (returned, s.events ++ released s.deferred)
finish (stops exited, s) = (exited, s.events)
finish (stops e, s) = (e, s.events ++ released s.deferred)

unfoldable pub run : Host → Ending × List Event
run h = finish (main h (record { events = []; deferred = [] }))
