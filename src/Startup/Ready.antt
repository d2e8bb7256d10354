-- ===== src/Startup/Ready.antt =====
-- When the program of cmd/main.go serves, and what it serves then.
use kredit_plus.Base.{
  Bool, true, false, List, [], ◌∷◌, ◌++◌, String, append, Option, none, some, ◌≡◌, refl, ◌⊎◌, inl,
  inr,
}
use kredit_plus.Entity.Error.{Error, error_text}
use kredit_plus.Platform.Table.{ok, err}
use kredit_plus.Platform.Monad.Outcomes.{Result-cases}
use kredit_plus.Startup.Config as Config
use kredit_plus.Startup.Logger as Logger
use kredit_plus.Startup.Mysql as Mysql
use kredit_plus.Startup.Redis as Redis
use kredit_plus.Startup.Wiring.{Wired}
use kredit_plus.Startup.Main.{
  Resource, log_buffer, database, cache, Event, registered, listened, logged, Ending, panicked,
  exited, returned, Host, Process, logger_config, mysql_config, redis_config, wait_for_signal,
  start_server, main, finish, run, hold, or_panic, or_fatal, fatal, ◌>>=◌, ◌>>◌,
}

-- Everything that `main` opens could be opened.
pub record IsReady (h : Host) : Type 0 where
  pub config : Config.Config
  pub loaded : Config.load h.viper ≡ ok config
  pub logger : Logger.Logger
  pub built : Logger.new_logger h.zap (logger_config config.logger) ≡ ok logger
  pub db : Mysql.Client
  pub connected : Mysql.new_client h.mysql (mysql_config config.mysql) logger 0 ≡ ok db
  pub redis : Redis.Client
  pub reached : Redis.new_client h.redis (redis_config config.redis) logger 0 ≡ ok redis

abbrev fresh : Process
fresh = record { events = []; deferred = [] }

-- what is behind the connections
abbrev connected : Host → Config.Config → Logger.Logger → Mysql.Client → Redis.Client → Process
connected h cfg logger db redis = record {
  events = Event.opened log_buffer ∷ Event.opened (database db) ∷ Event.opened (cache redis) ∷ [];
  deferred = cache redis ∷ database db ∷ log_buffer ∷ [];
}

-- the part of the events that is there when the server listens, as the handlers that are registered
-- and the address
abbrev pub listening_from : List Wired → List Event → Option (List Wired × String)
listening_from ws [] = none
listening_from ws (listened a ∷ es) = some (ws, a)
listening_from ws (registered w ∷ es) = listening_from (ws ++ w ∷ []) es
listening_from ws (e ∷ es) = listening_from ws es

abbrev pub listening : List Event → Option (List Wired × String)
listening es = listening_from [] es

abbrev pub closings : List Event → List Resource
closings [] = []
closings (Event.closed r ∷ es) = r ∷ closings es
closings (e ∷ es) = closings es

abbrev pub is_returned : Ending → Bool
is_returned returned = true
is_returned e = false

-- A start that failed: nothing listens, nothing is closed.
pub record IsEarly (h : Host) : Type 0 where
  pub ending : Ending
  pub events : List Event
  pub is_run : run h ≡ (ending, events)
  pub silent : listening events ≡ none
  pub unreleased : closings events ≡ []
  pub not_returned : is_returned ending ≡ false

pub run_ready :
    (h : Host) (r : IsReady h)
    → run h
      ≡ finish (
          (start_server h r.config r.db r.redis r.logger >> wait_for_signal h)
            (connected h r.config r.logger r.db r.redis))
unfolding run main or_panic or_fatal ◌>>=◌ ◌>>◌ hold
run_ready h r = rw (r.loaded, r.built, r.connected, r.reached)

module _ (h : Host) where
  no_config : (e : Error) → Config.load h.viper ≡ err e → IsEarly h
  unfolding run main finish or_panic ◌>>=◌ ◌>>◌
  no_config e q = record {
    ending = panicked (append "failed to load config" (append ": " (error_text e)));
    events = [];
    is_run = rw q;
    silent = refl;
    unreleased = refl;
    not_returned = refl;
  }

  no_logger :
      (cfg : Config.Config) (e : Error)
      → Config.load h.viper ≡ ok cfg
      → Logger.new_logger h.zap (logger_config cfg.logger) ≡ err e
      → IsEarly h
  unfolding run main finish or_panic ◌>>=◌ ◌>>◌
  no_logger cfg e p q = record {
    ending = panicked (append "failed to create logger" (append ": " (error_text e)));
    events = [];
    is_run = rw (p, q);
    silent = refl;
    unreleased = refl;
    not_returned = refl;
  }

  no_database :
      (cfg : Config.Config) (logger : Logger.Logger) (e : Error)
      → Config.load h.viper ≡ ok cfg
      → Logger.new_logger h.zap (logger_config cfg.logger) ≡ ok logger
      → Mysql.new_client h.mysql (mysql_config cfg.mysql) logger 0 ≡ err e
      → IsEarly h
  unfolding run main finish or_panic or_fatal fatal hold ◌>>=◌ ◌>>◌
  no_database cfg logger e p q r = record {
    ending = exited;
    events =
        Event.opened log_buffer
        ∷ logged Logger.fatal_level "failed to connect to database" (some e)
        ∷ [];
    is_run = rw (p, q, r);
    silent = refl;
    unreleased = refl;
    not_returned = refl;
  }

  no_cache :
      (cfg : Config.Config) (logger : Logger.Logger) (db : Mysql.Client) (e : Error)
      → Config.load h.viper ≡ ok cfg
      → Logger.new_logger h.zap (logger_config cfg.logger) ≡ ok logger
      → Mysql.new_client h.mysql (mysql_config cfg.mysql) logger 0 ≡ ok db
      → Redis.new_client h.redis (redis_config cfg.redis) logger 0 ≡ err e
      → IsEarly h
  unfolding run main finish or_panic or_fatal fatal hold ◌>>=◌ ◌>>◌
  no_cache cfg logger db e p q r t = record {
    ending = exited;
    events =
        Event.opened log_buffer
        ∷ Event.opened (database db)
        ∷ logged Logger.fatal_level "failed to connect to redis" (some e)
        ∷ [];
    is_run = rw (p, q, r, t);
    silent = refl;
    unreleased = refl;
    not_returned = refl;
  }

  -- everything is there, or the start failed
  pub start_cases : IsReady h ⊎ IsEarly h
  start_cases = elim (Result-cases (Config.load h.viper)) [
    | inr (e, p) ↦ inr (no_config e p)
    | inl (cfg, p) ↦ elim (Result-cases (Logger.new_logger h.zap (logger_config cfg.logger))) [
      | inr (e, q) ↦ inr (no_logger cfg e p q)
      | inl (logger, q) ↦
          elim (Result-cases (Mysql.new_client h.mysql (mysql_config cfg.mysql) logger 0)) [
            | inr (e, r) ↦ inr (no_database cfg logger e p q r)
            | inl (db, r) ↦
                elim (Result-cases (Redis.new_client h.redis (redis_config cfg.redis) logger 0)) [
                  | inr (e, t) ↦ inr (no_cache cfg logger db e p q r t)
                  | inl (redis, t) ↦ inl (record {
                    config = cfg;
                    loaded = p;
                    logger = logger;
                    built = q;
                    db = db;
                    connected = r;
                    redis = redis;
                    reached = t;
                  })
                ]
          ]
    ]
  ]
