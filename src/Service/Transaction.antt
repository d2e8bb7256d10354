-- ===== src/Service/Transaction.antt =====
-- internal/service/transaction.go
pub mod Effects
pub mod Purchase
pub mod Approval
pub mod Status
pub mod Charging
pub mod Success
use mathlib.Core.Option
use kredit_plus.Base.{ℕ, pos, not, List, [], ◌∷◌, map, String, append, Option, some, none, is_empty}
use kredit_plus.Float.{Float64, add, sub, mul, div, lt, of_int}
use kredit_plus.Time.{Time}
use kredit_plus.Entity.Error.{
  Uuid, message, wrapped, validation_failed, duplicate_contract, insufficient_credit_limit,
  invalid_status, nil_dereference, transaction_not_found,
}
use kredit_plus.Entity.CreditLimit.{CreditLimit}
use kredit_plus.Entity.Customer.{Customer, CustomerResponse}
use kredit_plus.Entity.Asset.{Asset}
use kredit_plus.Entity.Transaction.{
  Transaction, TransactionDetail, TransactionStatus, TransactionResponse, InstallmentResponse,
  CreateTransactionRequest, TransactionFilterRequest, validate, validate_filter, is_valid_status,
  to_filter,
}
use kredit_plus.Platform.Table.{Result, ok, err}
use kredit_plus.Platform.World.{Platform}
use kredit_plus.Platform.Monad.{M, pure, raise, wrap, ◌>>=◌, ◌>>◌, fail_if, attempt, now, new_uuid}
use kredit_plus.Repository.Customer as CustomerRepo
use kredit_plus.Repository.Asset as AssetRepo
use kredit_plus.Repository.CreditLimit as CreditLimitRepo
use kredit_plus.Repository.Transaction as Repo
use kredit_plus.Service.CreditLimit.{rfc3339, or_raise, is_set}
use kredit_plus.Service.Asset as AssetService
use kredit_plus.Service.Gathering.{gather}

-- a result that was got earlier, its error wrapped
unfoldable pub checked : {A : Type 0} → String → Result A → M A
checked text (ok a) = pure a
checked text (err e) = raise (wrapped text e)

-- What the checks of `Create` hand on: the asset and the limit that they found.
pub record Approved : Type 0 where
  pub asset : Asset
  pub limit : CreditLimit

-- the amounts that `Create` computes
unfoldable pub interest_amount : Asset → CreateTransactionRequest → Float64
interest_amount a req =
    div (mul (mul a.price req.interest_rate) (of_int req.tenor_month)) (of_int (pos 100))

unfoldable pub total_amount : Asset → CreateTransactionRequest → Float64
total_amount a req = add (add a.price req.admin_fee) (interest_amount a req)

unfoldable pub installment_amount : Asset → CreateTransactionRequest → Float64
installment_amount a req = div (total_amount a req) (of_int req.tenor_month)

-- the row that `Create` makes
unfoldable pub new_transaction :
    CreateTransactionRequest → Approved → Uuid → Time → Time → Transaction
new_transaction req a id created_at updated_at = record {
  id = id;
  customer_id = req.customer_id;
  asset_id = req.asset_id;
  contract_number = req.contract_number;
  otr_amount = a.asset.price;
  admin_fee = req.admin_fee;
  interest_amount = interest_amount a.asset req;
  tenor_month = req.tenor_month;
  installment_amount = installment_amount a.asset req;
  status = "pending";
  created_at = created_at;
  updated_at = updated_at;
  customer = none;
  asset = none;
  transaction_detail = none;
}

module _ (p : Platform) where
  customer_response : Customer → CustomerResponse
  customer_response c = record {
    id = c.id;
    nik = c.nik;
    full_name = c.full_name;
    legal_name = c.legal_name;
    birth_place = c.birth_place;
    birth_date = p.format "2006-01-02" c.birth_date;
    salary = c.salary;
    is_active = c.is_active;
    documents = [];
    created_at = p.format rfc3339 c.created_at;
    updated_at = p.format rfc3339 c.updated_at;
  }

  installment_response : TransactionDetail → InstallmentResponse
  installment_response d = record {
    id = d.id;
    transaction_id = d.transaction_id;
    installment_number = d.installment_number;
    amount = d.amount;
    due_date = p.format "2006-01-02" d.due_date;
    status = d.status;
    created_at = p.format rfc3339 d.created_at;
    updated_at = p.format rfc3339 d.updated_at;
  }

  -- at most one installment: the association holds one row
  installments : Option TransactionDetail → List InstallmentResponse
  unfolding installment_response
  installments none = []
  installments (some d) = installment_response d ∷ []

  unfoldable pub to_response : Transaction → TransactionResponse
  unfolding customer_response installments
  to_response t = record {
    id = t.id;
    customer_id = t.customer_id;
    asset_id = t.asset_id;
    contract_number = t.contract_number;
    otr_amount = t.otr_amount;
    admin_fee = t.admin_fee;
    interest_amount = t.interest_amount;
    tenor_month = t.tenor_month;
    installment_amount = t.installment_amount;
    status = t.status;
    asset = Option.map (AssetService.to_response p) t.asset;
    customer = Option.map customer_response t.customer;
    installments = installments t.transaction_detail;
    created_at = p.format rfc3339 t.created_at;
    updated_at = p.format rfc3339 t.updated_at;
  }

  -- the reads of `Create`, and the checks of what they gave, in the order of the checks
  unfoldable pub approve : CreateTransactionRequest → M Approved
  approve req = do
    received ← gather p req
    existing ← checked "failed to check existing contract" received.contract
    fail_if (is_set existing) duplicate_contract
    found_customer ← checked "failed to get customer" received.customer
    customer ← or_raise found_customer (message "customer not found")
    fail_if (not customer.is_active) (message "customer is not active")
    found_asset ← checked "failed to get asset" received.asset
    asset ← or_raise found_asset (message "asset not found")
    found_limit ← checked "failed to get credit limit" received.limit
    limit ← or_raise found_limit (
        message (
          append "no credit limit found for tenor "
            (append (p.int_text req.tenor_month) " months")))
    pure (record { asset = asset; limit = limit })

  -- the writes of `Create`: the transaction is stored, then its total is charged to the limit
  unfoldable pub settle : CreateTransactionRequest → Approved → M TransactionResponse
  settle req a = do
    fail_if (lt (sub a.limit.limit_amount a.limit.used_amount) (total_amount a.asset req))
        insufficient_credit_limit
    id ← new_uuid p
    created_at ← now p
    updated_at ← now p
    wrap "failed to create transaction"
        (Repo.create p (new_transaction req a id created_at updated_at))
    wrap "failed to update credit limit"
        (CreditLimitRepo.update_used_amount p a.limit.id (total_amount a.asset req))
    row ← wrap "failed to get created transaction" (Repo.get_by_id p id)
    -- a missing row is dereferenced there, which panics
    created ← or_raise row nil_dereference
    pure (to_response created)

  unfoldable pub create : CreateTransactionRequest → M TransactionResponse
  create req = do
    fail_if (not (is_empty (validate req))) (validation_failed (validate req))
    approved ← approve req
    settle req approved

  unfoldable pub get_by_id : Uuid → M TransactionResponse
  get_by_id id = do
    row ← wrap "failed to get transaction" (Repo.get_by_id p id)
    t ← or_raise row transaction_not_found
    pure (to_response t)

  unfoldable pub get_by_contract_number : String → M TransactionResponse
  get_by_contract_number contract_number = do
    row ← wrap "failed to get transaction" (Repo.get_by_contract_number p contract_number)
    t ← or_raise row transaction_not_found
    pure (to_response t)

  unfoldable pub get_all_by_customer_id :
      Uuid → TransactionFilterRequest → M (List TransactionResponse × ℕ)
  get_all_by_customer_id customer_id filter = do
    fail_if (not (is_empty (validate_filter filter))) (validation_failed (validate_filter filter))
    (rows, total) ←
        wrap "failed to get transactions"
          (Repo.get_all_by_customer_id p customer_id (to_filter filter))
    pure (map to_response rows, total)

  unfoldable pub update_status : Uuid → TransactionStatus → M (Unit {0})
  update_status id status = do
    fail_if (not (is_valid_status status)) invalid_status
    row ← wrap "failed to get transaction" (Repo.get_by_id p id)
    t ← or_raise row transaction_not_found
    wrap "failed to update status" (Repo.update_status p id status)
