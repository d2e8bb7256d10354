-- ===== src/Invariant/Failures.antt =====
-- What a service call leaves behind where it answers with an error.
use kredit_plus.Base.{Bool, true, false, Option, none, some, ◌≡◌}
use kredit_plus.Entity.Error.{Error}
use kredit_plus.Platform.Table.{Result, ok, err}
use kredit_plus.Platform.World.{World, Platform}
use kredit_plus.Platform.Monad.{M}
use kredit_plus.Platform.Monad.Effects.{Atomic}
use kredit_plus.Service.Asset as AssetService
use kredit_plus.Service.Asset.Effects as Asset
use kredit_plus.Service.Customer as CustomerService
use kredit_plus.Service.Customer.Effects as Customer
use kredit_plus.Service.CreditLimit as LimitService
use kredit_plus.Service.CreditLimit.Effects as Limit
use kredit_plus.Service.Transaction as TransactionService
use kredit_plus.Service.Transaction.Effects as Transaction
use kredit_plus.Invariant.Calls.{
  Call, create_limit, update_used_amount, delete_limit, purchase, update_status, create_asset,
  update_asset, delete_asset, create_customer, update_customer, delete_customer, upload_document,
  run_call,
}

abbrev pub error_of : {A : Type 0} → Result A → Option Error
error_of (ok a) = none
error_of (err e) = some e

-- the error that a call answers with
unfoldable pub failure : Platform → Call → World → Option Error
failure p (create_limit req) w = error_of (LimitService.create p req w).0
failure p (update_used_amount id amount) w =
    error_of (LimitService.update_used_amount p id amount w).0
failure p (delete_limit id) w = error_of (LimitService.delete p id w).0
failure p (purchase req) w = error_of (TransactionService.create p req w).0
failure p (update_status id s) w = error_of (TransactionService.update_status p id s w).0
failure p (create_asset req) w = error_of (AssetService.create p req w).0
failure p (update_asset id req) w = error_of (AssetService.update p id req w).0
failure p (delete_asset id) w = error_of (AssetService.delete p id w).0
failure p (create_customer req) w = error_of (CustomerService.create p req w).0
failure p (update_customer id req) w = error_of (CustomerService.update p id req w).0
failure p (delete_customer id) w = error_of (CustomerService.delete p id w).0
failure p (upload_document id req) w = error_of (CustomerService.upload_document p id req w).0

abbrev pub is_purchase : Call → Bool
is_purchase (purchase req) = true
is_purchase _ = false

error_of-some : {A : Type 0} (r : Result A) (e : Error) → error_of r ≡ some e → r ≡ err e
error_of-some (ok a) e h = cc
error_of-some (err x) e h = cc

unchanged :
    {A : Type 0} (m : M A) (w : World) (e : Error)
    → Atomic m
    → error_of (m w).0 ≡ some e
    → (m w).1.db ≡ w.db
unchanged m w e h k = h.at w e (error_of-some _ e k)

-- A service call other than a purchase that answers with an error, at whichever step it failed,
-- leaves the tables as they were.
pub failure_unchanged :
    (p : Platform) (c : Call) (w : World) (e : Error)
    → is_purchase c ≡ false
    → failure p c w ≡ some e
    → (run_call p c w).db ≡ w.db
unfolding failure run_call
failure_unchanged p (create_limit req) w e n h = unchanged _ w e (Limit.create-Atomic p req) h
failure_unchanged p (update_used_amount id amount) w e n h =
    unchanged _ w e (Limit.update_used_amount-Atomic p id amount) h
failure_unchanged p (delete_limit id) w e n h = unchanged _ w e (Limit.delete-Atomic p id) h
failure_unchanged p (purchase req) w e n h = cc
failure_unchanged p (update_status id s) w e n h =
    unchanged _ w e (Transaction.update_status-Atomic p id s) h
failure_unchanged p (create_asset req) w e n h = unchanged _ w e (Asset.create-Atomic p req) h
failure_unchanged p (update_asset id req) w e n h = unchanged _ w e (Asset.update-Atomic p id req) h
failure_unchanged p (delete_asset id) w e n h = unchanged _ w e (Asset.delete-Atomic p id) h
failure_unchanged p (create_customer req) w e n h = unchanged _ w e (Customer.create-Atomic p req) h
failure_unchanged p (update_customer id req) w e n h =
    unchanged _ w e (Customer.update-Atomic p id req) h
failure_unchanged p (delete_customer id) w e n h = unchanged _ w e (Customer.delete-Atomic p id) h
failure_unchanged p (upload_document id req) w e n h =
    unchanged _ w e (Customer.upload_document-Atomic p id req) h
