-- ===== src/Startup/Wiring.antt =====
-- wire/wire_gen.go and the constructors that it calls: what each handler is built from.
use kredit_plus.Base.{List}
use kredit_plus.Platform.Table.{Result, ok}
use kredit_plus.Handler.Routes.{
  Route, asset_routes, customer_routes, credit_limit_routes, transaction_routes,
}
use kredit_plus.Startup.Logger.{Logger}
use kredit_plus.Startup.Mysql as Mysql
use kredit_plus.Startup.Redis as Redis

pub record AssetRepository : Type 0 where
  pub db : Mysql.Client
  pub redis : Redis.Client
  pub logger : Logger

unfoldable pub new_asset_repository : Mysql.Client → Redis.Client → Logger → AssetRepository
new_asset_repository db redis logger = record { db = db; redis = redis; logger = logger }

pub record CustomerRepository : Type 0 where
  pub db : Mysql.Client
  pub redis : Redis.Client
  pub logger : Logger

unfoldable pub new_customer_repository : Mysql.Client → Redis.Client → Logger → CustomerRepository
new_customer_repository db redis logger = record { db = db; redis = redis; logger = logger }

pub record CreditLimitRepository : Type 0 where
  pub db : Mysql.Client
  pub logger : Logger

unfoldable pub new_credit_limit_repository : Mysql.Client → Logger → CreditLimitRepository
new_credit_limit_repository db logger = record { db = db; logger = logger }

pub record TransactionRepository : Type 0 where
  pub db : Mysql.Client
  pub logger : Logger

unfoldable pub new_transaction_repository : Mysql.Client → Logger → TransactionRepository
new_transaction_repository db logger = record { db = db; logger = logger }

pub record AssetService : Type 0 where
  pub repo : AssetRepository
  pub logger : Logger

unfoldable pub new_asset_service : AssetRepository → Logger → AssetService
new_asset_service repo logger = record { repo = repo; logger = logger }

pub record CustomerService : Type 0 where
  pub repo : CustomerRepository
  pub logger : Logger

unfoldable pub new_customer_service : CustomerRepository → Logger → CustomerService
new_customer_service repo logger = record { repo = repo; logger = logger }

pub record CreditLimitService : Type 0 where
  pub repo : CreditLimitRepository
  pub logger : Logger

unfoldable pub new_credit_limit_service : CreditLimitRepository → Logger → CreditLimitService
new_credit_limit_service repo logger = record { repo = repo; logger = logger }

pub record TransactionService : Type 0 where
  pub transaction_repo : TransactionRepository
  pub customer_repo : CustomerRepository
  pub credit_limit_repo : CreditLimitRepository
  pub asset_repo : AssetRepository
  pub logger : Logger

unfoldable pub new_transaction_service :
    TransactionRepository
    → CustomerRepository
    → CreditLimitRepository
    → AssetRepository
    → Logger
    → TransactionService
new_transaction_service transaction_repo customer_repo credit_limit_repo asset_repo logger =
    record {
      transaction_repo = transaction_repo;
      customer_repo = customer_repo;
      credit_limit_repo = credit_limit_repo;
      asset_repo = asset_repo;
      logger = logger;
    }

pub record AssetHandler : Type 0 where
  pub service : AssetService
  pub logger : Logger

unfoldable pub new_asset_handler : AssetService → Logger → AssetHandler
new_asset_handler service logger = record { service = service; logger = logger }

pub record CustomerHandler : Type 0 where
  pub service : CustomerService
  pub logger : Logger

unfoldable pub new_customer_handler : CustomerService → Logger → CustomerHandler
new_customer_handler service logger = record { service = service; logger = logger }

pub record CreditLimitHandler : Type 0 where
  pub service : CreditLimitService
  pub logger : Logger

unfoldable pub new_credit_limit_handler : CreditLimitService → Logger → CreditLimitHandler
new_credit_limit_handler service logger = record { service = service; logger = logger }

pub record TransactionHandler : Type 0 where
  pub service : TransactionService
  pub logger : Logger

unfoldable pub new_transaction_handler : TransactionService → Logger → TransactionHandler
new_transaction_handler service logger = record { service = service; logger = logger }

module _ (db : Mysql.Client) (redis : Redis.Client) (logger : Logger) where
  unfoldable pub initialize_asset_handler : Result AssetHandler
  initialize_asset_handler =
      let repository = new_asset_repository db redis logger in
      let service = new_asset_service repository logger in ok (new_asset_handler service logger)

  unfoldable pub initialize_customer_handler : Result CustomerHandler
  initialize_customer_handler =
      let repository = new_customer_repository db redis logger in
      let service = new_customer_service repository logger in
      ok (new_customer_handler service logger)

  unfoldable pub initialize_credit_limit_handler : Result CreditLimitHandler
  initialize_credit_limit_handler =
      let repository = new_credit_limit_repository db logger in
      let service = new_credit_limit_service repository logger in
      ok (new_credit_limit_handler service logger)

  unfoldable pub initialize_transaction_handler : Result TransactionHandler
  initialize_transaction_handler =
      let transactions = new_transaction_repository db logger in
      let customers = new_customer_repository db redis logger in
      let limits = new_credit_limit_repository db logger in
      let assets = new_asset_repository db redis logger in
      let service = new_transaction_service transactions customers limits assets logger in
      ok (new_transaction_handler service logger)

-- a handler of any of the four kinds
pub data Wired : Type 0 where
  asset_handler : AssetHandler → Wired
  customer_handler : CustomerHandler → Wired
  credit_limit_handler : CreditLimitHandler → Wired
  transaction_handler : TransactionHandler → Wired

-- `RegisterRoutes`
unfoldable pub register_routes : Wired → List Route
register_routes (asset_handler h) = asset_routes
register_routes (customer_handler h) = customer_routes
register_routes (credit_limit_handler h) = credit_limit_routes
register_routes (transaction_handler h) = transaction_routes
