-- ===== src/Handler/Calling.antt =====
-- The call of a service that each request asks for.
use kredit_plus.Base.{String, Option, none, some, ◌≡◌, refl, ap}
use kredit_plus.Entity.Error.{Error}
use kredit_plus.Platform.World.{World, Platform}
use kredit_plus.Platform.Monad.{M}
use kredit_plus.Invariant.Calls.{Call, run_call}
use kredit_plus.Handler.{Request, Reply, Http, Handler, Parsed, parsed, unparsed, parse_or, answer}
use kredit_plus.Handler.Asset as AssetHandler
use kredit_plus.Handler.Customer as CustomerHandler
use kredit_plus.Handler.CreditLimit as CreditLimitHandler
use kredit_plus.Handler.Transaction as TransactionHandler
use kredit_plus.Handler.Effects.{Reads}
use kredit_plus.Handler.Routes.{
  Endpoint, create_asset, list_assets, get_asset, update_asset, delete_asset, create_customer,
  get_customer, get_customer_by_nik, update_customer, delete_customer, upload_document,
  get_documents, create_limit, get_limit, get_limits, get_limit_of_tenor, update_used_amount,
  delete_limit, create_transaction, get_transaction, get_contract, get_transactions, update_status,
  is_read, serve,
}
use kredit_plus.Handler.Served.{serve-Reads}

-- The tables behind no call or one.
abbrev pub run_option : Platform → Option Call → World → World
run_option p none w = w
run_option p (some c) w = run_call p c w

-- A text that does not parse asks for nothing.
abbrev pub with_parsed : {A : Type 0} → Parsed A → (A → Option Call) → Option Call
with_parsed (parsed a) f = f a
with_parsed (unparsed e) f = none

-- What a request asks for: the call of its method, with the identifier of its path and its body. The
-- methods that read ask for no call that writes.
abbrev pub asked_call : Http → Endpoint → Request → Option Call
asked_call h create_asset r =
    with_parsed (h.create_asset r.body) λ req. some (Call.create_asset req)
asked_call h update_asset r =
    with_parsed (h.parse_uuid (r.params "id"))
      λ id. with_parsed (h.update_asset r.body) λ req. some (Call.update_asset id req)
asked_call h delete_asset r =
    with_parsed (h.parse_uuid (r.params "id")) λ id. some (Call.delete_asset id)
asked_call h create_customer r =
    with_parsed (h.create_customer r.body) λ req. some (Call.create_customer req)
asked_call h update_customer r =
    with_parsed (h.parse_uuid (r.params "id"))
      λ id. with_parsed (h.update_customer r.body) λ req. some (Call.update_customer id req)
asked_call h delete_customer r =
    with_parsed (h.parse_uuid (r.params "id")) λ id. some (Call.delete_customer id)
asked_call h upload_document r =
    with_parsed (h.parse_uuid (r.params "id"))
      λ id. with_parsed (h.upload_document r.body) λ req. some (Call.upload_document id req)
asked_call h create_limit r =
    with_parsed (h.create_limit r.body) λ req. some (Call.create_limit req)
asked_call h update_used_amount r = with_parsed (h.parse_uuid (r.params "id")) λ id.
    with_parsed (h.update_used_amount r.body) λ req. some (Call.update_used_amount id req.amount)
asked_call h delete_limit r =
    with_parsed (h.parse_uuid (r.params "id")) λ id. some (Call.delete_limit id)
asked_call h create_transaction r =
    with_parsed (h.create_transaction r.body) λ req. some (Call.purchase req)
asked_call h update_status r =
    with_parsed (h.parse_uuid (r.params "id"))
      λ id. with_parsed (h.update_status r.body) λ req. some (Call.update_status id req.status)
asked_call h _ r = none

module _ (p : Platform) (h : Http) where
  -- The handler does to the tables what the call does.
  record Does (o : Option Call) (k : Handler) : Type 0 where
    at : (w : World) → (k w).1.db ≡ (run_option p o w).db

  Does-Reads : (k : Handler) → Reads k → Does none k
  Does-Reads k r = record { at = r.at }

  Does-answer :
      {A : Type 0} (m : M A) (on_error : Error → Reply) (on_value : A → Reply) (c : Call)
      → ((w : World) → (m w).1 ≡ run_call p c w)
      → Does (some c) (answer h m on_error on_value)
  unfolding answer
  Does-answer m on_error on_value c same = record { at = λ w. ap (λ v. v.db) (same w) }

  Does-parse_or :
      {A : Type 0} (text : String) (a : Parsed A) (f : A → Option Call) (k : A → Handler)
      → ((a : A) → Does (f a) (k a))
      → Does (with_parsed a f) (parse_or h a text k)
  unfolding parse_or
  Does-parse_or text (parsed a) f k d = record { at = (d a).at }
  Does-parse_or text (unparsed e) f k d = record { at = λ w. refl }

  serve-Does : (e : Endpoint) (r : Request) → Does (asked_call h e r) (serve p h e r)
  unfolding serve run_call AssetHandler.create AssetHandler.update AssetHandler.delete
      CustomerHandler.create CustomerHandler.update CustomerHandler.delete
      CustomerHandler.upload_document CreditLimitHandler.create
      CreditLimitHandler.update_used_amount CreditLimitHandler.delete TransactionHandler.create
      TransactionHandler.update_status is_read
  serve-Does create_asset r =
      Does-parse_or _ _ _ _ λ req. Does-answer _ _ _ (Call.create_asset req) (λ w. refl)
  serve-Does create_customer r =
      Does-parse_or _ _ _ _ λ req. Does-answer _ _ _ (Call.create_customer req) (λ w. refl)
  serve-Does create_limit r =
      Does-parse_or _ _ _ _ λ req. Does-answer _ _ _ (Call.create_limit req) (λ w. refl)
  serve-Does create_transaction r =
      Does-parse_or _ _ _ _ λ req. Does-answer _ _ _ (Call.purchase req) (λ w. refl)
  serve-Does delete_asset r =
      Does-parse_or _ _ _ _ λ id. Does-answer _ _ _ (Call.delete_asset id) (λ w. refl)
  serve-Does delete_customer r =
      Does-parse_or _ _ _ _ λ id. Does-answer _ _ _ (Call.delete_customer id) (λ w. refl)
  serve-Does delete_limit r =
      Does-parse_or _ _ _ _ λ id. Does-answer _ _ _ (Call.delete_limit id) (λ w. refl)
  serve-Does update_asset r =
      Does-parse_or _ _ _ _
        λ id. Does-parse_or _ _ _ _ λ req. Does-answer _ _ _ (Call.update_asset id req) (λ w. refl)
  serve-Does update_customer r =
      Does-parse_or _ _ _ _ λ id.
        Does-parse_or _ _ _ _ λ req. Does-answer _ _ _ (Call.update_customer id req) (λ w. refl)
  serve-Does upload_document r =
      Does-parse_or _ _ _ _ λ id.
        Does-parse_or _ _ _ _ λ req. Does-answer _ _ _ (Call.upload_document id req) (λ w. refl)
  serve-Does update_used_amount r = Does-parse_or _ _ _ _ λ id.
      Does-parse_or _ _ _ _
        λ req. Does-answer _ _ _ (Call.update_used_amount id req.amount) (λ w. refl)
  serve-Does update_status r = Does-parse_or _ _ _ _ λ id.
      Does-parse_or _ _ _ _ λ req. Does-answer _ _ _ (Call.update_status id req.status) (λ w. refl)
  serve-Does list_assets r = Does-Reads _ (serve-Reads p h r list_assets refl)
  serve-Does get_asset r = Does-Reads _ (serve-Reads p h r get_asset refl)
  serve-Does get_customer r = Does-Reads _ (serve-Reads p h r get_customer refl)
  serve-Does get_customer_by_nik r = Does-Reads _ (serve-Reads p h r get_customer_by_nik refl)
  serve-Does get_documents r = Does-Reads _ (serve-Reads p h r get_documents refl)
  serve-Does get_limit r = Does-Reads _ (serve-Reads p h r get_limit refl)
  serve-Does get_limits r = Does-Reads _ (serve-Reads p h r get_limits refl)
  serve-Does get_limit_of_tenor r = Does-Reads _ (serve-Reads p h r get_limit_of_tenor refl)
  serve-Does get_transaction r = Does-Reads _ (serve-Reads p h r get_transaction refl)
  serve-Does get_contract r = Does-Reads _ (serve-Reads p h r get_contract refl)
  serve-Does get_transactions r = Does-Reads _ (serve-Reads p h r get_transactions refl)

  -- Whatever the request, its handler does to the tables what the call that it asks for does, with
  -- the identifier of the path and the body, and nothing where it asks for none: where a text does
  -- not parse, and for the methods that read.
  pub serve-asked_call :
      (e : Endpoint) (r : Request) (w : World)
      → (serve p h e r w).1.db ≡ (run_option p (asked_call h e r) w).db
  serve-asked_call e r w = (serve-Does e r).at w
