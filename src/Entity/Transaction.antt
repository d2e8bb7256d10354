-- ===== src/Entity/Transaction.antt =====
-- internal/entity/transaction.go
use kredit_plus.Base.{
  ℤ, pos, ◌-ℤ◌, ◌*ℤ◌, wrap64, ltb_ℤ, ◌==◌, Bool, ◌&&◌, ◌||◌, not, String, str_eq, List, ◌++◌,
  Option,
}
use kredit_plus.Float.{Float64, lt, zero_float, of_int}
use kredit_plus.Time.{Time}
use kredit_plus.Entity.Error.{Uuid, nil_uuid, check}
use kredit_plus.Entity.CreditLimit.{is_valid_tenor}
use kredit_plus.Entity.Customer.{Customer, CustomerResponse}
use kredit_plus.Entity.Asset.{Asset, AssetResponse}

-- string types
abbrev pub TransactionStatus : Type 0
TransactionStatus = String

abbrev pub TransactionDetailStatus : Type 0
TransactionDetailStatus = String

pub record TransactionDetail : Type 0 where
  pub id : Uuid
  pub transaction_id : Uuid
  pub installment_number : ℤ
  pub amount : Float64
  pub due_date : Time
  pub status : TransactionDetailStatus
  pub created_at : Time
  pub updated_at : Time

-- `customer`, `asset` and `transaction_detail` are the pointers that a query may load.
pub record Transaction : Type 0 where
  pub id : Uuid
  pub customer_id : Uuid
  pub asset_id : Uuid
  pub contract_number : String
  pub otr_amount : Float64
  pub admin_fee : Float64
  pub interest_amount : Float64
  pub tenor_month : ℤ
  pub installment_amount : Float64
  pub status : TransactionStatus
  pub created_at : Time
  pub updated_at : Time
  pub customer : Option Customer
  pub asset : Option Asset
  pub transaction_detail : Option TransactionDetail

pub record CreateTransactionRequest : Type 0 where
  pub customer_id : Uuid
  pub asset_id : Uuid
  pub tenor_month : ℤ
  pub admin_fee : Float64
  pub interest_rate : Float64
  pub contract_number : String

pub record TransactionFilterRequest : Type 0 where
  pub status : TransactionStatus
  pub page : ℤ
  pub per_page : ℤ

pub record TransactionFilterRepository : Type 0 where
  pub status : TransactionStatus
  pub limit : ℤ
  pub offset : ℤ

pub record InstallmentResponse : Type 0 where
  pub id : Uuid
  pub transaction_id : Uuid
  pub installment_number : ℤ
  pub amount : Float64
  pub due_date : String
  pub status : TransactionDetailStatus
  pub created_at : String
  pub updated_at : String

-- `asset` and `customer` are struct values in the source: `none` stands for the zero value.
pub record TransactionResponse : Type 0 where
  pub id : Uuid
  pub customer_id : Uuid
  pub asset_id : Uuid
  pub contract_number : String
  pub otr_amount : Float64
  pub admin_fee : Float64
  pub interest_amount : Float64
  pub tenor_month : ℤ
  pub installment_amount : Float64
  pub status : TransactionStatus
  pub asset : Option AssetResponse
  pub customer : Option CustomerResponse
  pub installments : List InstallmentResponse
  pub created_at : String
  pub updated_at : String

-- `TransactionStatus.IsValid`
unfoldable pub is_valid_status : TransactionStatus → Bool
is_valid_status s = str_eq s "pending" || str_eq s "active" || str_eq s "completed"

-- `TransactionDetailStatus.IsValid`
unfoldable pub is_valid_detail_status : TransactionDetailStatus → Bool
is_valid_detail_status s = str_eq s "pending" || str_eq s "paid" || str_eq s "overdue"

-- `CreateTransactionRequest.Validate`. The escaped contract number is dropped there.
unfoldable pub validate : CreateTransactionRequest → List String
validate r =
    check (r.customer_id == nil_uuid) "customer_id is required"
    ++ (check (r.asset_id == nil_uuid) "asset_id is required"
        ++ (check (not (is_valid_tenor r.tenor_month)) "tenor_month must be 1, 2, 3, or 6"
            ++ (check (lt r.admin_fee zero_float) "admin_fee must not be negative"
                ++ (check (lt r.interest_rate zero_float || lt (of_int (pos 100)) r.interest_rate)
                      "interest_rate must be between 0 and 100"
                    ++ check (str_eq r.contract_number "") "contract_number is required"))))

-- `TransactionFilterRequest.Validate`
unfoldable pub validate_filter : TransactionFilterRequest → List String
unfolding is_valid_status
validate_filter r =
    check (ltb_ℤ r.page (pos 1)) "page must be greater than 0"
    ++ (check (ltb_ℤ r.per_page (pos 1)) "per_page must be greater than 0"
        ++ (check (ltb_ℤ (pos 100) r.per_page) "per_page must not exceed 100"
            ++ check (not (str_eq r.status "") && not (is_valid_status r.status)) "invalid status"))

-- `ToTransactionFilterRepo`, in 64-bit integers
unfoldable pub to_filter : TransactionFilterRequest → TransactionFilterRepository
to_filter r = record {
  status = r.status;
  limit = r.per_page;
  offset = wrap64 (wrap64 (r.page -ℤ pos 1) *ℤ r.per_page);
}
