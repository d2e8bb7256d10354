-- ===== src/Startup/Serving.antt =====
-- What the program of cmd/main.go serves when everything could be opened, and how it ends then.
use kredit_plus.Base.{
  List, [], ◌∷◌, ◌++◌, map, String, none, some, All, ◌≡◌, refl, sym, ap, ◌∙◌, ◌↔◌, ◌⊎◌, inl, inr,
  subst, Option-cases,
}
use kredit_plus.Entity.Error.{Error}
use kredit_plus.Platform.Table.{In}
use kredit_plus.Handler.Routing.{routes}
use kredit_plus.Startup.Logger as Logger
use kredit_plus.Startup.Mysql as Mysql
use kredit_plus.Startup.Redis as Redis
use kredit_plus.Startup.Wiring as Wiring
use kredit_plus.Startup.Wiring.{
  Wired, asset_handler, customer_handler, credit_limit_handler, transaction_handler,
  register_routes,
}
use kredit_plus.Startup.Main.{
  log_buffer, database, cache, Event, registered, listened, logged, shut_down, Ending, exited,
  returned, Host, Wake, listener_failed, signalled, address, wait_for_signal, start_server, finish,
  run, emit, released, or_fatal, fatal, ◌>>=◌, ◌>>◌,
}
use kredit_plus.Startup.Ready.{IsReady, run_ready, start_cases, listening, listening_from, closings}

Wake-cases : (w : Wake) → ((e : Error) × (w ≡ listener_failed e)) ⊎ (w ≡ signalled)
Wake-cases (listener_failed e) = inl (e, refl)
Wake-cases signalled = inr refl

-- the four handlers, over the clients and the logger
abbrev pub wired : Mysql.Client → Redis.Client → Logger.Logger → List Wired
wired db redis logger =
    let assets : Wiring.AssetRepository = record { db = db; redis = redis; logger = logger } in
    let customers : Wiring.CustomerRepository = record {
      db = db;
      redis = redis;
      logger = logger;
    } in
    let limits : Wiring.CreditLimitRepository = record { db = db; logger = logger } in
    let transactions : Wiring.TransactionRepository = record { db = db; logger = logger } in
    let sales : Wiring.TransactionService = record {
      transaction_repo = transactions;
      customer_repo = customers;
      credit_limit_repo = limits;
      asset_repo = assets;
      logger = logger;
    } in
    asset_handler (record { service = record { repo = assets; logger = logger }; logger = logger })
    ∷ customer_handler
        (record { service = record { repo = customers; logger = logger }; logger = logger })
    ∷ credit_limit_handler
        (record { service = record { repo = limits; logger = logger }; logger = logger })
    ∷ transaction_handler (record { service = sales; logger = logger })
    ∷ []

module _ (h : Host) (r : IsReady h) where
  -- what the process does up to the listening
  abbrev pub before : List Event
  before =
      Event.opened log_buffer
      ∷ Event.opened (database r.db)
      ∷ Event.opened (cache r.redis)
      ∷ Event.allowed "*" "GET,POST,PUT,DELETE,OPTIONS"
      ∷ (map registered (wired r.db r.redis r.logger)
          ++ listened (address h.int_text r.config) ∷ [])

  abbrev stop : List Event
  stop = logged Logger.info_level "shutting down server..." none ∷ shut_down ∷ []

  run_serving :
      run h
      ≡ finish (
          wait_for_signal h (record {
            events = before;
            deferred = cache r.redis ∷ database r.db ∷ log_buffer ∷ [];
          }))
  unfolding start_server or_fatal emit ◌>>=◌ ◌>>◌ Wiring.initialize_asset_handler
      Wiring.initialize_customer_handler Wiring.initialize_credit_limit_handler
      Wiring.initialize_transaction_handler Wiring.new_asset_repository
      Wiring.new_customer_repository Wiring.new_credit_limit_repository
      Wiring.new_transaction_repository Wiring.new_asset_service Wiring.new_customer_service
      Wiring.new_credit_limit_service Wiring.new_transaction_service Wiring.new_asset_handler
      Wiring.new_customer_handler Wiring.new_credit_limit_handler Wiring.new_transaction_handler
  run_serving = run_ready h r

  run_failed :
      (e : Error)
      → h.wake ≡ listener_failed e
      → run h ≡ (exited, before ++ logged Logger.fatal_level "failed to start server" (some e) ∷ [])
  unfolding wait_for_signal finish fatal
  run_failed e q = run_serving ∙ rw q

  run_forced :
      (e : Error)
      → h.wake ≡ signalled
      → h.shutdown ≡ some e
      → run h ≡ (
        exited,
        before ++ (stop ++ logged Logger.fatal_level "server forced to shutdown" (some e) ∷ []),
      )
  unfolding wait_for_signal finish fatal emit ◌>>=◌ ◌>>◌
  run_forced e q t = run_serving ∙ rw (q, t)

  run_stopped :
      h.wake ≡ signalled
      → h.shutdown ≡ none
      → run h ≡ (
        returned,
        before
            ++ (stop
                ++ Event.closed (cache r.redis)
                  ∷ Event.closed (database r.db)
                  ∷ Event.closed log_buffer
                  ∷ []),
      )
  unfolding wait_for_signal finish emit ◌>>=◌ ◌>>◌
  run_stopped q t = run_serving ∙ rw (q, t)

  -- how a process that serves ends: it is stopped in good order, or it exits
  pub served :
      ((h.wake ≡ signalled)
        × (h.shutdown ≡ none)
        × (run h ≡ (
          returned,
          before ++ (stop ++ released (cache r.redis ∷ database r.db ∷ log_buffer ∷ [])),
        )))
      ⊎ (¬ ((h.wake ≡ signalled) × (h.shutdown ≡ none))
          × ((events : List Event) × (closings events ≡ [])
              × (listening_from [] events ≡ none)
              × (run h ≡ (exited, before ++ events))))
  served = elim (Wake-cases h.wake) [
    | inl (e, q) ↦ inr (λ k. cc (q, k.0), (_, refl, refl, run_failed e q))
    | inr q ↦ elim (Option-cases h.shutdown) [
      | inl t ↦ inl (q, t, run_stopped q t)
      | inr (e, t) ↦ inr (λ k. cc (t, k.1), (_, refl, refl, run_forced e q t))
    ]
  ]

-- the clients of the database that a handler reaches
abbrev pub databases : Wired → List Mysql.Client
databases (asset_handler h) = h.service.repo.db ∷ []
databases (customer_handler h) = h.service.repo.db ∷ []
databases (credit_limit_handler h) = h.service.repo.db ∷ []
databases (transaction_handler h) =
    h.service.transaction_repo.db ∷ h.service.customer_repo.db ∷ h.service.credit_limit_repo.db
    ∷ h.service.asset_repo.db ∷ []

-- the clients of the cache that a handler reaches
abbrev pub caches : Wired → List Redis.Client
caches (asset_handler h) = h.service.repo.redis ∷ []
caches (customer_handler h) = h.service.repo.redis ∷ []
caches (credit_limit_handler h) = []
caches (transaction_handler h) = h.service.customer_repo.redis ∷ h.service.asset_repo.redis ∷ []

abbrev pub gathered : {A : Type 0} → (Wired → List A) → List Wired → List A
gathered f [] = []
gathered f (w ∷ ws) = f w ++ gathered f ws

-- `Listen` is called with the address, every route is registered before, and its handlers reach one client of the
-- database and one of the cache, both of them opened.
pub record Serves (h : Host) (a : String) : Type 0 where
  pub handlers : List Wired
  pub heard : listening (run h).1 ≡ some (handlers, a)
  pub all_routes : gathered register_routes handlers ≡ routes
  pub db : Mysql.Client
  pub db_opened : In (Event.opened (database db)) (run h).1
  pub one_db : All (λ c. c ≡ db) (gathered databases handlers)
  pub redis : Redis.Client
  pub redis_opened : In (Event.opened (cache redis)) (run h).1
  pub one_redis : All (λ c. c ≡ redis) (gathered caches handlers)

module _ (h : Host) (r : IsReady h) where
  run_before : (ending : Ending) × (events : List Event) × (run h ≡ (ending, before h r ++ events))
  run_before = elim (served h r) [
    | inl (q, t, is_run) ↦ (_, _, is_run)
    | inr (k, (es, c, l, is_run)) ↦ (_, es, is_run)
  ]

  ready_heard :
      listening (run h).1 ≡ some (wired r.db r.redis r.logger, address h.int_text r.config)
  ready_heard = let (ending, events, is_run) = run_before in ap (λ x. listening (x.1)) is_run

  ready-Serves : Serves h (address h.int_text r.config)
  unfolding register_routes
  ready-Serves =
      let (ending, events, is_run) = run_before in
      record {
        handlers = wired r.db r.redis r.logger;
        heard = ready_heard;
        all_routes = refl;
        db = r.db;
        db_opened =
            subst (λ (x : Ending × List Event). In (Event.opened (database r.db)) (x.1))
              (sym is_run) (inr (inl refl));
        one_db = (refl, (refl, (refl, (refl, (refl, (refl, (refl, tt)))))));
        redis = r.redis;
        redis_opened =
            subst (λ (x : Ending × List Event). In (Event.opened (cache r.redis)) (x.1))
              (sym is_run) (inr (inr (inl refl)));
        one_redis = (refl, (refl, (refl, (refl, tt))));
      }

-- The program calls `Listen` exactly where its configuration is read, its logger is built, and the
-- database and the cache are reached: then at the configured port, with every route of the four
-- handlers registered before, which share the one client of the database and the one of the cache
-- that were opened.
pub run-Serves :
    (h : Host) (a : String) → Serves h a ↔ ((r : IsReady h) × (a ≡ address h.int_text r.config))
run-Serves h a = (to, λ (r, q). subst (λ x. Serves h x) (sym q) (ready-Serves h r))
  where
    to : Serves h a → (r : IsReady h) × (a ≡ address h.int_text r.config)
    to s = elim (start_cases h) [
      | inl r ↦ (r, cc (s.heard, ready_heard h r))
      | inr e ↦ absurd (cc (s.heard, e.silent, ap (λ x. listening (x.1)) e.is_run))
    ]
