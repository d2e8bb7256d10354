-- ===== src/Concurrent/Calls.antt =====
-- A call of a service, and a request, takes the tables through methods of the repositories.
use kredit_plus.Base.{true, false, ◌≡◌, sym, none, some, subst, if◌then◌else◌}
use kredit_plus.Float.{Float64, lt, eq, zero_float}
use kredit_plus.Time.{Time}
use kredit_plus.Entity.Error.{Uuid}
use kredit_plus.Entity.CreditLimit.{CreateCreditLimitRequest}
use kredit_plus.Entity.Customer.{
  CreateCustomerRequest, UpdateCustomerRequest, UploadDocumentRequest,
}
use kredit_plus.Entity.Asset.{CreateAssetRequest, UpdateAssetRequest}
use kredit_plus.Entity.Transaction.{TransactionStatus, CreateTransactionRequest}
use kredit_plus.Platform.World.{Db, World, Platform}
use kredit_plus.Platform.Monad.{pure}
use kredit_plus.Platform.Monad.Effects.{Keeps}
use kredit_plus.Repository.CreditLimit as LimitRepo
use kredit_plus.Service.CreditLimit as LimitService
use kredit_plus.Service.CreditLimit.Rules.{is_empty-nil}
use kredit_plus.Service.Customer as CustomerService
use kredit_plus.Service.Asset as AssetService
use kredit_plus.Service.Transaction as TransactionService
use kredit_plus.Invariant.Covered.{positive_limit}
use kredit_plus.Invariant.Calls.{Call, run_call}
use kredit_plus.Handler.{Request, Http}
use kredit_plus.Handler.Routes.{Endpoint, serve}
use kredit_plus.Handler.Calling.{run_option, asked_call, serve-asked_call}
use kredit_plus.Concurrent.{Steps, stay}
use kredit_plus.Concurrent.Methods.{Reached, Keeps-guard, created_limit, method_rules}

module _ (p : Platform) (start : Db) where
  purchase-Keeps :
      (req : CreateTransactionRequest) → Keeps (Reached p start) (TransactionService.create p req)
  unfolding TransactionService.create TransactionService.settle
  purchase-Keeps req = search method_rules depth 20

  update_status-Keeps :
      (id : Uuid) (s : TransactionStatus)
      → Keeps (Reached p start) (TransactionService.update_status p id s)
  unfolding TransactionService.update_status
  update_status-Keeps id s = search method_rules depth 20

  create_limit-Keeps :
      (req : CreateCreditLimitRequest) → Keeps (Reached p start) (LimitService.create p req)
  unfolding LimitService.create
  create_limit-Keeps req = Keeps-guard (Reached p start) _ _ _ λ valid.
      let covered : lt req.limit_amount zero_float ≡ false =
        positive_limit req (is_empty-nil _ valid) in
      let created : (id : Uuid) (created_at updated_at : Time)
          → Keeps (Reached p start) (
              LimitRepo.create p (record {
                id = id;
                customer_id = req.customer_id;
                tenor_month = req.tenor_month;
                limit_amount = req.limit_amount;
                used_amount = zero_float;
                created_at = created_at;
                updated_at = updated_at;
              })) =
        λ id created_at updated_at. created_limit p start _ covered in
      search (method_rules, created) depth 20

  change_used_amount-Keeps :
      (id : Uuid) (amount : Float64)
      → Keeps (Reached p start) (LimitService.change_used_amount p id amount)
  unfolding LimitService.change_used_amount
  change_used_amount-Keeps id amount = search method_rules depth 20

  update_used_amount-Keeps :
      (id : Uuid) (amount : Float64)
      → Keeps (Reached p start) (LimitService.update_used_amount p id amount)
  unfolding LimitService.update_used_amount
  update_used_amount-Keeps id amount =
      elim (eq amount zero_float)
        as (λ b.
          Keeps (Reached p start)
            (if b then pure tt else LimitService.change_used_amount p id amount)) [
              | true ↦ search method_rules
              | false ↦ change_used_amount-Keeps id amount
            ]

  delete_limit-Keeps : (id : Uuid) → Keeps (Reached p start) (LimitService.delete p id)
  unfolding LimitService.delete
  delete_limit-Keeps id = search method_rules depth 20

  create_asset-Keeps :
      (req : CreateAssetRequest) → Keeps (Reached p start) (AssetService.create p req)
  unfolding AssetService.create
  create_asset-Keeps req = search method_rules depth 20

  update_asset-Keeps :
      (id : Uuid) (req : UpdateAssetRequest)
      → Keeps (Reached p start) (AssetService.update p id req)
  unfolding AssetService.update
  update_asset-Keeps id req = search method_rules depth 20

  delete_asset-Keeps : (id : Uuid) → Keeps (Reached p start) (AssetService.delete p id)
  unfolding AssetService.delete
  delete_asset-Keeps id = search method_rules depth 20

  create_customer-Keeps :
      (req : CreateCustomerRequest) → Keeps (Reached p start) (CustomerService.create p req)
  unfolding CustomerService.create
  create_customer-Keeps req = search method_rules depth 20

  update_customer-Keeps :
      (id : Uuid) (req : UpdateCustomerRequest)
      → Keeps (Reached p start) (CustomerService.update p id req)
  unfolding CustomerService.update
  update_customer-Keeps id req = search method_rules depth 20

  delete_customer-Keeps : (id : Uuid) → Keeps (Reached p start) (CustomerService.delete p id)
  unfolding CustomerService.delete
  delete_customer-Keeps id = search method_rules depth 20

  upload_document-Keeps :
      (id : Uuid) (req : UploadDocumentRequest)
      → Keeps (Reached p start) (CustomerService.upload_document p id req)
  unfolding CustomerService.upload_document
  upload_document-Keeps id req = search method_rules depth 20 fits 10000

  run_call-Steps : (c : Call) (w : World) → Steps p start w.db → Steps p start (run_call p c w).db
  unfolding run_call
  run_call-Steps (Call.create_limit req) w = (create_limit-Keeps req).at w
  run_call-Steps (Call.update_used_amount id amount) w = (update_used_amount-Keeps id amount).at w
  run_call-Steps (Call.delete_limit id) w = (delete_limit-Keeps id).at w
  run_call-Steps (Call.purchase req) w = (purchase-Keeps req).at w
  run_call-Steps (Call.update_status id s) w = (update_status-Keeps id s).at w
  run_call-Steps (Call.create_asset req) w = (create_asset-Keeps req).at w
  run_call-Steps (Call.update_asset id req) w = (update_asset-Keeps id req).at w
  run_call-Steps (Call.delete_asset id) w = (delete_asset-Keeps id).at w
  run_call-Steps (Call.create_customer req) w = (create_customer-Keeps req).at w
  run_call-Steps (Call.update_customer id req) w = (update_customer-Keeps id req).at w
  run_call-Steps (Call.delete_customer id) w = (delete_customer-Keeps id).at w
  run_call-Steps (Call.upload_document id req) w = (upload_document-Keeps id req).at w

-- Whatever a request does to the tables, it does by writing methods of the repositories, and a limit
-- that it opens is covered.
pub serve-Steps :
    (p : Platform) (h : Http) (e : Endpoint) (r : Request) (w : World)
    → Steps p w.db (serve p h e r w).1.db
serve-Steps p h e r w =
    subst (Steps p w.db) (sym (serve-asked_call p h e r w))
      (elim (asked_call h e r) as (λ o. Steps p w.db (run_option p o w).db) [
        | none ↦ stay
        | some c ↦ run_call-Steps p w.db c w stay
      ])
