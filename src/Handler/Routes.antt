-- ===== src/Handler/Routes.antt =====
-- The routes that the handlers register (`RegisterRoutes`), in the order of cmd/main.go, and the
-- method that serves each.
use kredit_plus.Base.{Bool, true, false, String, List, [], ◌∷◌}
use kredit_plus.Platform.World.{World, Platform}
use kredit_plus.Handler.{Request, Http, Handler}
use kredit_plus.Handler.Asset as AssetHandler
use kredit_plus.Handler.Customer as CustomerHandler
use kredit_plus.Handler.CreditLimit as CreditLimitHandler
use kredit_plus.Handler.Transaction as TransactionHandler

-- The methods of the handlers.
pub data Endpoint : Type 0 where
  create_asset list_assets get_asset update_asset delete_asset : Endpoint
  create_customer get_customer get_customer_by_nik update_customer delete_customer : Endpoint
  upload_document get_documents : Endpoint
  create_limit get_limit get_limits get_limit_of_tenor update_used_amount delete_limit : Endpoint
  create_transaction get_transaction get_contract get_transactions update_status : Endpoint

-- the one method that makes a purchase
abbrev pub is_sale : Endpoint → Bool
is_sale create_transaction = true
is_sale _ = false

-- the methods that read
unfoldable pub is_read : Endpoint → Bool
is_read list_assets = true
is_read get_asset = true
is_read get_customer = true
is_read get_customer_by_nik = true
is_read get_documents = true
is_read get_limit = true
is_read get_limits = true
is_read get_limit_of_tenor = true
is_read get_transaction = true
is_read get_contract = true
is_read get_transactions = true
is_read _ = false

-- `:name` or a literal part of a path
pub data Segment : Type 0 where
  lit param : String → Segment

pub record Route : Type 0 where
  pub method : String
  pub pattern : List Segment
  pub endpoint : Endpoint

-- A route of a group: the prefix, then the rest of the pattern.
abbrev pub route : String → List Segment → Endpoint → Route
route method pattern e = record {
  method = method;
  pattern = lit "api" ∷ lit "v1" ∷ pattern;
  endpoint = e;
}

abbrev pub asset_routes : List Route
asset_routes =
    route "POST" (lit "assets" ∷ []) create_asset
    ∷ route "GET" (lit "assets" ∷ []) list_assets
    ∷ route "GET" (lit "assets" ∷ param "id" ∷ []) get_asset
    ∷ route "PUT" (lit "assets" ∷ param "id" ∷ []) update_asset
    ∷ route "DELETE" (lit "assets" ∷ param "id" ∷ []) delete_asset
    ∷ []

abbrev pub customer_routes : List Route
customer_routes =
    route "POST" (lit "customers" ∷ []) create_customer
    ∷ route "GET" (lit "customers" ∷ param "id" ∷ []) get_customer
    ∷ route "GET" (lit "customers" ∷ lit "nik" ∷ param "nik" ∷ []) get_customer_by_nik
    ∷ route "PUT" (lit "customers" ∷ param "id" ∷ []) update_customer
    ∷ route "DELETE" (lit "customers" ∷ param "id" ∷ []) delete_customer
    ∷ route "POST" (lit "customers" ∷ param "id" ∷ lit "documents" ∷ []) upload_document
    ∷ route "GET" (lit "customers" ∷ param "id" ∷ lit "documents" ∷ []) get_documents
    ∷ []

abbrev pub credit_limit_routes : List Route
credit_limit_routes =
    route "POST" (lit "credit-limits" ∷ []) create_limit
    ∷ route "GET" (lit "credit-limits" ∷ param "id" ∷ []) get_limit
    ∷ route "GET" (lit "credit-limits" ∷ lit "customer" ∷ param "customer_id" ∷ []) get_limits
    ∷ route "GET"
        (lit "credit-limits"
          ∷ lit "customer"
          ∷ param "customer_id"
          ∷ lit "tenor"
          ∷ param "tenor_month"
          ∷ [])
        get_limit_of_tenor
    ∷ route "PUT" (lit "credit-limits" ∷ param "id" ∷ lit "used-amount" ∷ []) update_used_amount
    ∷ route "DELETE" (lit "credit-limits" ∷ param "id" ∷ []) delete_limit
    ∷ []

abbrev pub transaction_routes : List Route
transaction_routes =
    route "POST" (lit "transactions" ∷ []) create_transaction
    ∷ route "GET" (lit "transactions" ∷ param "id" ∷ []) get_transaction
    ∷ route "GET" (lit "transactions" ∷ lit "contract" ∷ param "contract_number" ∷ []) get_contract
    ∷ route "GET" (lit "transactions" ∷ lit "customer" ∷ param "customer_id" ∷ []) get_transactions
    ∷ route "PUT" (lit "transactions" ∷ param "id" ∷ lit "status" ∷ []) update_status
    ∷ []

module _ (p : Platform) (h : Http) where
  unfoldable pub serve : Endpoint → Request → Handler
  serve create_asset = AssetHandler.create p h
  serve list_assets = AssetHandler.list_assets p h
  serve get_asset = AssetHandler.get_by_id p h
  serve update_asset = AssetHandler.update p h
  serve delete_asset = AssetHandler.delete p h
  serve create_customer = CustomerHandler.create p h
  serve get_customer = CustomerHandler.get_by_id p h
  serve get_customer_by_nik = CustomerHandler.get_by_nik p h
  serve update_customer = CustomerHandler.update p h
  serve delete_customer = CustomerHandler.delete p h
  serve upload_document = CustomerHandler.upload_document p h
  serve get_documents = CustomerHandler.get_documents p h
  serve create_limit = CreditLimitHandler.create p h
  serve get_limit = CreditLimitHandler.get_by_id p h
  serve get_limits = CreditLimitHandler.get_all_by_customer_id p h
  serve get_limit_of_tenor = CreditLimitHandler.get_by_customer_id_and_tenor p h
  serve update_used_amount = CreditLimitHandler.update_used_amount p h
  serve delete_limit = CreditLimitHandler.delete p h
  serve create_transaction = TransactionHandler.create p h
  serve get_transaction = TransactionHandler.get_by_id p h
  serve get_contract = TransactionHandler.get_by_contract_number p h
  serve get_transactions = TransactionHandler.get_all_by_customer_id p h
  serve update_status = TransactionHandler.update_status p h

  -- The requests that the program serves one after the other.
  unfoldable pub serve_all : List (Endpoint × Request) → World → World
  serve_all [] w = w
  serve_all ((e, r) ∷ rs) w = serve_all rs (serve e r w).1
