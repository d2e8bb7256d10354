-- ===== src/Handler/Served.antt =====
-- Every request is served by at most one writing call of a service.
use kredit_plus.Base.{true, ◌≡◌, refl}
use kredit_plus.Platform.World.{Platform}
use kredit_plus.Service.Reads as Service
use kredit_plus.Invariant.Calls.{Call, run_call}
use kredit_plus.Invariant.Failures.{failure}
use kredit_plus.Handler.{Request, Http}
use kredit_plus.Handler.Asset as AssetHandler
use kredit_plus.Handler.Customer as CustomerHandler
use kredit_plus.Handler.CreditLimit as CreditLimitHandler
use kredit_plus.Handler.Transaction as TransactionHandler
use kredit_plus.Handler.Effects.{
  Reads, Served, Served-of_Reads, Reads-answer, Reads-parse_or, Reads-refused, Reads-if,
  Served-call, Served-parse_or, Sends-give, Sends-give_created,
}
use kredit_plus.Handler.Routes.{
  Endpoint, create_asset, list_assets, get_asset, update_asset, delete_asset, create_customer,
  get_customer, get_customer_by_nik, update_customer, delete_customer, upload_document,
  get_documents, create_limit, get_limit, get_limits, get_limit_of_tenor, update_used_amount,
  delete_limit, create_transaction, get_transaction, get_contract, get_transactions, update_status,
  is_sale, is_read, serve,
}

ruleset handler_reads = (Reads-parse_or, Reads-if, Reads-refused, Reads-answer)

module _ (p : Platform) (h : Http) (r : Request) where
  documents-Reads : Reads (CustomerHandler.get_documents p h r)
  unfolding CustomerHandler.get_documents CustomerHandler.list_documents
  documents-Reads = search (handler_reads, Service.get_documents-ReadOnly)

  nik-Reads : Reads (CustomerHandler.get_by_nik p h r)
  unfolding CustomerHandler.get_by_nik
  nik-Reads = search (handler_reads, Service.get_customer_by_nik-ReadOnly)

  contract-Reads : Reads (TransactionHandler.get_by_contract_number p h r)
  unfolding TransactionHandler.get_by_contract_number
  contract-Reads = search (handler_reads, Service.get_contract-ReadOnly)

  pub serve-Reads : (e : Endpoint) → is_read e ≡ true → Reads (serve p h e r)
  unfolding serve is_read AssetHandler.list_assets AssetHandler.get_by_id CustomerHandler.get_by_id
      CreditLimitHandler.get_by_id CreditLimitHandler.get_all_by_customer_id
      CreditLimitHandler.get_by_customer_id_and_tenor TransactionHandler.get_by_id
      TransactionHandler.get_all_by_customer_id
  serve-Reads list_assets e = Reads-answer p h _ _ _ (Service.list_assets-ReadOnly p _)
  serve-Reads get_asset e =
      Reads-parse_or p h _ _ _ λ id. Reads-answer p h _ _ _ (Service.get_asset-ReadOnly p id)
  serve-Reads get_customer e =
      Reads-parse_or p h _ _ _ λ id. Reads-answer p h _ _ _ (Service.get_customer-ReadOnly p id)
  serve-Reads get_customer_by_nik e = nik-Reads
  serve-Reads get_documents e = documents-Reads
  serve-Reads get_limit e =
      Reads-parse_or p h _ _ _ λ id. Reads-answer p h _ _ _ (Service.get_limit-ReadOnly p id)
  serve-Reads get_limits e =
      Reads-parse_or p h _ _ _ λ id. Reads-answer p h _ _ _ (Service.get_limits-ReadOnly p id)
  serve-Reads get_limit_of_tenor e = Reads-parse_or p h _ _ _ λ id.
      Reads-parse_or p h _ _ _
        λ tenor. Reads-answer p h _ _ _ (Service.get_limit_of_tenor-ReadOnly p id tenor)
  serve-Reads get_transaction e =
      Reads-parse_or p h _ _ _ λ id. Reads-answer p h _ _ _ (Service.get_transaction-ReadOnly p id)
  serve-Reads get_contract e = contract-Reads
  serve-Reads get_transactions e =
      Reads-parse_or p h _ _ _
        λ id. Reads-answer p h _ _ _ (Service.get_transactions-ReadOnly p id _)
  serve-Reads _ e = cc

  -- Every request leaves the tables alone or is served by one call.
  pub serve-Served : (e : Endpoint) → Served p h (is_sale e) (serve p h e r)
  unfolding serve run_call failure AssetHandler.create AssetHandler.update AssetHandler.delete
      CustomerHandler.create CustomerHandler.update CustomerHandler.delete
      CustomerHandler.upload_document CreditLimitHandler.create
      CreditLimitHandler.update_used_amount CreditLimitHandler.delete TransactionHandler.create
      TransactionHandler.update_status is_read
  serve-Served create_asset = Served-parse_or p h _ _ _ _ λ req.
      Served-call p h _ _ _ (Call.create_asset req) (λ w. refl) (λ w. refl)
        (λ a. Sends-give_created p h _ _)
  serve-Served update_asset = Served-parse_or p h _ _ _ _ λ id. Served-parse_or p h _ _ _ _ λ req.
      Served-call p h _ _ _ (Call.update_asset id req) (λ w. refl) (λ w. refl)
        (λ a. Sends-give p h _ _)
  serve-Served delete_asset = Served-parse_or p h _ _ _ _ λ id.
      Served-call p h _ _ _ (Call.delete_asset id) (λ w. refl) (λ w. refl) (λ a. Sends-give p h _ _)
  serve-Served create_customer = Served-parse_or p h _ _ _ _ λ req.
      Served-call p h _ _ _ (Call.create_customer req) (λ w. refl) (λ w. refl)
        (λ a. Sends-give_created p h _ _)
  serve-Served update_customer = Served-parse_or p h _ _ _ _ λ id.
      Served-parse_or p h _ _ _ _ λ req.
        Served-call p h _ _ _ (Call.update_customer id req) (λ w. refl) (λ w. refl)
          (λ a. Sends-give p h _ _)
  serve-Served delete_customer = Served-parse_or p h _ _ _ _ λ id.
      Served-call p h _ _ _ (Call.delete_customer id) (λ w. refl) (λ w. refl)
        (λ a. Sends-give p h _ _)
  serve-Served upload_document = Served-parse_or p h _ _ _ _ λ id.
      Served-parse_or p h _ _ _ _ λ req.
        Served-call p h _ _ _ (Call.upload_document id req) (λ w. refl) (λ w. refl)
          (λ a. Sends-give_created p h _ _)
  serve-Served create_limit = Served-parse_or p h _ _ _ _ λ req.
      Served-call p h _ _ _ (Call.create_limit req) (λ w. refl) (λ w. refl)
        (λ a. Sends-give_created p h _ _)
  serve-Served update_used_amount = Served-parse_or p h _ _ _ _ λ id.
      Served-parse_or p h _ _ _ _ λ req.
        Served-call p h _ _ _ (Call.update_used_amount id req.amount) (λ w. refl) (λ w. refl)
          (λ a. Sends-give p h _ _)
  serve-Served delete_limit = Served-parse_or p h _ _ _ _ λ id.
      Served-call p h _ _ _ (Call.delete_limit id) (λ w. refl) (λ w. refl) (λ a. Sends-give p h _ _)
  serve-Served create_transaction = Served-parse_or p h _ _ _ _ λ req.
      Served-call p h _ _ _ (Call.purchase req) (λ w. refl) (λ w. refl)
        (λ a. Sends-give_created p h _ _)
  serve-Served update_status = Served-parse_or p h _ _ _ _ λ id. Served-parse_or p h _ _ _ _ λ req.
      Served-call p h _ _ _ (Call.update_status id req.status) (λ w. refl) (λ w. refl)
        (λ a. Sends-give p h _ _)
  serve-Served list_assets = Served-of_Reads p h _ (serve-Reads list_assets refl)
  serve-Served get_asset = Served-of_Reads p h _ (serve-Reads get_asset refl)
  serve-Served get_customer = Served-of_Reads p h _ (serve-Reads get_customer refl)
  serve-Served get_customer_by_nik = Served-of_Reads p h _ (serve-Reads get_customer_by_nik refl)
  serve-Served get_documents = Served-of_Reads p h _ (serve-Reads get_documents refl)
  serve-Served get_limit = Served-of_Reads p h _ (serve-Reads get_limit refl)
  serve-Served get_limits = Served-of_Reads p h _ (serve-Reads get_limits refl)
  serve-Served get_limit_of_tenor = Served-of_Reads p h _ (serve-Reads get_limit_of_tenor refl)
  serve-Served get_transaction = Served-of_Reads p h _ (serve-Reads get_transaction refl)
  serve-Served get_contract = Served-of_Reads p h _ (serve-Reads get_contract refl)
  serve-Served get_transactions = Served-of_Reads p h _ (serve-Reads get_transactions refl)
