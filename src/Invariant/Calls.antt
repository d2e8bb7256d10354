-- ===== src/Invariant/Calls.antt =====
-- Any sequence of service calls, in any order and whatever fails on the way.
use kredit_plus.Base.{ℕ, List, [], ◌∷◌}
use kredit_plus.Float.{Float64}
use kredit_plus.Entity.Error.{Uuid}
use kredit_plus.Entity.CreditLimit.{CreditLimit, CreateCreditLimitRequest}
use kredit_plus.Entity.Asset.{CreateAssetRequest, UpdateAssetRequest}
use kredit_plus.Entity.Customer.{
  CreateCustomerRequest, UpdateCustomerRequest, UploadDocumentRequest,
}
use kredit_plus.Entity.Transaction.{CreateTransactionRequest, Transaction, TransactionStatus}
use kredit_plus.Platform.Table.{Result}
use kredit_plus.Platform.World.{Db, World, Platform}
use kredit_plus.Platform.Monad.{write}
use kredit_plus.Platform.Monad.Effects.{Keeps, Keeps-write, Keeps-transaction, keeps_rules}
use kredit_plus.Repository.Transaction as TransactionRepo
use kredit_plus.Repository.Transaction.{set_transactions}
use kredit_plus.Repository.Transaction.Effects as TransactionReads
use kredit_plus.Service.Asset as AssetService
use kredit_plus.Service.Customer as CustomerService
use kredit_plus.Service.CreditLimit as LimitService
use kredit_plus.Service.Transaction as TransactionService
use kredit_plus.Service.CreditLimit.Effects.{or_raise-ReadOnly}
use kredit_plus.Invariant.Others as Others
use kredit_plus.Invariant.Others.{Ignores}

-- The service calls that write, with the cached reads that they make.
pub data Call : Type 0 where
  create_limit : CreateCreditLimitRequest → Call
  update_used_amount : Uuid → Float64 → Call
  delete_limit : Uuid → Call
  purchase : CreateTransactionRequest → Call
  update_status : Uuid → TransactionStatus → Call
  create_asset : CreateAssetRequest → Call
  update_asset : Uuid → UpdateAssetRequest → Call
  delete_asset : Uuid → Call
  create_customer : CreateCustomerRequest → Call
  update_customer : Uuid → UpdateCustomerRequest → Call
  delete_customer : Uuid → Call
  upload_document : Uuid → UploadDocumentRequest → Call

-- Writes of the other tables keep what is said of the limits.
module _ (Q : List CreditLimit → Type 0) where
  abbrev pub OfLimits : Db → Type 0
  OfLimits db = Q db.limits

  pub OfLimits-Ignores : Ignores OfLimits
  OfLimits-Ignores = record {
    assets = λ rows db h. h;
    customers = λ rows db h. h;
    documents = λ rows db h. h;
  }

  pub transactions-Keeps :
      (f : Db → ℕ → Result (List Transaction)) → Keeps OfLimits (write f set_transactions)
  transactions-Keeps f = Keeps-write OfLimits f set_transactions (λ db n rows e h. h)

module _ (p : Platform) where
  -- the tables after a call; its result is left to the caller
  unfoldable pub run_call : Call → World → World
  run_call (create_limit req) w = (LimitService.create p req w).1
  run_call (update_used_amount id amount) w = (LimitService.update_used_amount p id amount w).1
  run_call (delete_limit id) w = (LimitService.delete p id w).1
  run_call (purchase req) w = (TransactionService.create p req w).1
  run_call (update_status id s) w = (TransactionService.update_status p id s w).1
  run_call (create_asset req) w = (AssetService.create p req w).1
  run_call (update_asset id req) w = (AssetService.update p id req w).1
  run_call (delete_asset id) w = (AssetService.delete p id w).1
  run_call (create_customer req) w = (CustomerService.create p req w).1
  run_call (update_customer id req) w = (CustomerService.update p id req w).1
  run_call (delete_customer id) w = (CustomerService.delete p id w).1
  run_call (upload_document id req) w = (CustomerService.upload_document p id req w).1

  unfoldable pub run_calls : List Call → World → World
  run_calls [] w = w
  run_calls (c ∷ cs) w = run_calls cs (run_call c w)

-- What a property of the limits needs: the four calls that change limits keep it.
pub record LimitCalls (Q : List CreditLimit → Type 0) (p : Platform) : Type 0 where
  pub create_limit_keeps :
      (req : CreateCreditLimitRequest) → Keeps (OfLimits Q) (LimitService.create p req)
  pub update_used_amount_keeps :
      (id : Uuid) (amount : Float64)
      → Keeps (OfLimits Q) (LimitService.update_used_amount p id amount)
  pub delete_limit_keeps : (id : Uuid) → Keeps (OfLimits Q) (LimitService.delete p id)
  pub purchase_keeps :
      (req : CreateTransactionRequest) → Keeps (OfLimits Q) (TransactionService.create p req)

module _ (Q : List CreditLimit → Type 0) (p : Platform) where
  update_status-Keeps :
      (id : Uuid) (s : TransactionStatus)
      → Keeps (OfLimits Q) (TransactionService.update_status p id s)
  unfolding TransactionService.update_status TransactionRepo.update_status
  update_status-Keeps id s =
      search
        (
          keeps_rules, Keeps-transaction, transactions-Keeps, or_raise-ReadOnly,
          TransactionReads.get_by_id-ReadOnly,
        )
        depth 20

  module _ (kept : LimitCalls Q p) where
    pub run_call_keeps : (c : Call) (w : World) → Q w.db.limits → Q (run_call p c w).db.limits
    unfolding run_call
    run_call_keeps (create_limit req) w = (kept.create_limit_keeps req).at w
    run_call_keeps (update_used_amount id amount) w = (kept.update_used_amount_keeps id amount).at w
    run_call_keeps (delete_limit id) w = (kept.delete_limit_keeps id).at w
    run_call_keeps (purchase req) w = (kept.purchase_keeps req).at w
    run_call_keeps (update_status id s) w = (update_status-Keeps id s).at w
    run_call_keeps (create_asset req) w =
        (Others.create_asset-Keeps (OfLimits Q) (OfLimits-Ignores Q) p req).at w
    run_call_keeps (update_asset id req) w =
        (Others.update_asset-Keeps (OfLimits Q) (OfLimits-Ignores Q) p id req).at w
    run_call_keeps (delete_asset id) w =
        (Others.delete_asset-Keeps (OfLimits Q) (OfLimits-Ignores Q) p id).at w
    run_call_keeps (create_customer req) w =
        (Others.create_customer-Keeps (OfLimits Q) (OfLimits-Ignores Q) p req).at w
    run_call_keeps (update_customer id req) w =
        (Others.update_customer-Keeps (OfLimits Q) (OfLimits-Ignores Q) p id req).at w
    run_call_keeps (delete_customer id) w =
        (Others.delete_customer-Keeps (OfLimits Q) (OfLimits-Ignores Q) p id).at w
    run_call_keeps (upload_document id req) w =
        (Others.upload_document-Keeps (OfLimits Q) (OfLimits-Ignores Q) p id req).at w

    -- A property of the limits that the four calls keep is kept by any sequence of calls.
    pub run_calls_keep :
        (cs : List Call) (w : World) → Q w.db.limits → Q (run_calls p cs w).db.limits
    unfolding run_calls
    run_calls_keep [] w h = h
    run_calls_keep (c ∷ cs) w h = run_calls_keep cs (run_call p c w) (run_call_keeps c w h)
