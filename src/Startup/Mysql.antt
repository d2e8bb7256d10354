-- ===== src/Startup/Mysql.antt =====
-- infra/mysql/client.go, but for `Transaction`, which is beside the calls that use it. The driver is
-- a parameter; each call of it is given its number.
use kredit_plus.Base.{ℕ, ◌+◌, ℤ, Bool, true, String, append, Option}
use kredit_plus.Entity.Error.{Error}
use kredit_plus.Platform.Table.{Result, ok}
use kredit_plus.Startup.Attempts.{◌>>◌, wrap_error, of_error}
use kredit_plus.Startup.Logger.{Logger}
use kredit_plus.Startup.QueryLog.{GormLogger, new_gorm_logger}

pub record Config : Type 0 where
  pub host : String
  pub port : ℤ
  pub user : String
  pub password : String
  pub database : String
  pub max_open_conns : ℤ
  pub max_idle_conns : ℤ
  pub max_lifetime : ℤ
  pub debug : Bool

-- `gorm.Config`; `now_in_utc` is the `NowFunc` that gives `time.Now().UTC()`
pub record GormConfig : Type 0 where
  pub logger : GormLogger
  pub now_in_utc : Bool

-- what the pool of `sql.DB` is set to
pub record Pool : Type 0 where
  pub max_open_conns : ℤ
  pub max_idle_conns : ℤ
  pub max_lifetime : ℤ

-- `*gorm.DB`, by what it was opened with
pub record GormDb : Type 0 where
  pub dsn : String
  pub config : GormConfig
  pub pool : Pool
  pub debug : Bool

pub record Client : Type 0 where
  pub db : GormDb
  pub logger : Logger

pub record Driver : Type 0 where
  -- `%d`
  pub int_text : ℤ → String
  -- `gorm.Open(mysql.Open(dsn), config)`
  pub open_db : String → GormConfig → ℕ → Option Error
  -- `db.DB()`, `PingContext` and `Close` of what it gives
  pub sql_db : String → ℕ → Option Error
  pub ping : String → ℕ → Option Error
  pub close : String → ℕ → Option Error

unfoldable pub dsn : (ℤ → String) → Config → String
dsn int_text cfg = append cfg.user (
    append ":" (
      append cfg.password (
        append "@tcp(" (
          append cfg.host (
            append ":" (
              append (int_text cfg.port) (
                append ")/" (append cfg.database "?charset=utf8mb4&parseTime=True&loc=Local"))))))))

module _ (d : Driver) where
  unfoldable pub new_client : Config → Logger → ℕ → Result Client
  new_client cfg logger n = do
    let text = dsn d.int_text cfg
    let config : GormConfig = record { logger = new_gorm_logger logger; now_in_utc = true }
    wrap_error "failed to connect to database" (of_error (d.open_db text config n))
    wrap_error "failed to get database instance" (of_error (d.sql_db text (n + 1)))
    let pool : Pool = record {
      max_open_conns = cfg.max_open_conns;
      max_idle_conns = cfg.max_idle_conns;
      max_lifetime = cfg.max_lifetime;
    }
    wrap_error "failed to verify database connection" (of_error (d.ping text (n + 2)))
    let db : GormDb = record { dsn = text; config = config; pool = pool; debug = cfg.debug }
    ok (record { db = db; logger = logger })

  unfoldable pub close : Client → ℕ → Result (Unit {0})
  close c n = do
    wrap_error "failed to get database instance" (of_error (d.sql_db c.db.dsn n))
    of_error (d.close c.db.dsn (n + 1))

  unfoldable pub health : Client → ℕ → Result (Unit {0})
  health c n = do
    wrap_error "failed to get database instance" (of_error (d.sql_db c.db.dsn n))
    of_error (d.ping c.db.dsn (n + 1))
