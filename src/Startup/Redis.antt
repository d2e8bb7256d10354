-- ===== src/Startup/Redis.antt =====
-- Opening and closing in infra/redis/client.go. go-redis is a parameter; each call of it is given its
-- number, and a ping that takes more than five seconds is a failed one.
use kredit_plus.Base.{ℕ, ℤ, String, append, Option}
use kredit_plus.Entity.Error.{Error}
use kredit_plus.Platform.Table.{Result, ok}
use kredit_plus.Startup.Attempts.{◌>>◌, wrap_error, of_error}
use kredit_plus.Startup.Logger.{Logger}

pub record Config : Type 0 where
  pub host : String
  pub port : ℤ
  pub password : String
  pub db : ℤ

-- `redis.Options`
pub record Options : Type 0 where
  pub addr : String
  pub password : String
  pub db : ℤ

pub record Client : Type 0 where
  pub client : Options
  pub logger : Logger

pub record Driver : Type 0 where
  -- `%d`
  pub int_text : ℤ → String
  pub ping : Options → ℕ → Option Error
  pub close : Options → ℕ → Option Error

module _ (d : Driver) where
  unfoldable pub new_client : Config → Logger → ℕ → Result Client
  new_client cfg logger n = do
    let client : Options = record {
      addr = append cfg.host (append ":" (d.int_text cfg.port));
      password = cfg.password;
      db = cfg.db;
    }
    wrap_error "failed to connect to redis" (of_error (d.ping client n))
    ok (record { client = client; logger = logger })

  unfoldable pub close : Client → ℕ → Result (Unit {0})
  close c n = of_error (d.close c.client n)
