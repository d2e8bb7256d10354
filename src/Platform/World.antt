-- ===== src/Platform/World.antt =====
-- The state of the running program: the six tables, the cache and the number of external calls
-- made so far; and everything external as one record of functions. Each external call is given its
-- number, so it may answer differently at each time.
use kredit_plus.Base.{ℕ, ℤ, Bool, List, String, Option}
use kredit_plus.Float.{Float64}
use kredit_plus.Time.{Time}
use kredit_plus.Entity.Error.{Uuid, Error}
use kredit_plus.Entity.Customer.{Customer, CustomerDocument}
use kredit_plus.Entity.CreditLimit.{CreditLimit}
use kredit_plus.Entity.Asset.{Asset, FieldError, CreateAssetRequest, UpdateAssetRequest}
use kredit_plus.Entity.Transaction.{Transaction, TransactionDetail}
use kredit_plus.Platform.Table.{Table, Result}
use kredit_plus.Platform.Redis.{Redis, Entries}

pub record Db : Type 0 where
  pub customers : List Customer
  pub documents : List CustomerDocument
  pub limits : List CreditLimit
  pub assets : List Asset
  pub transactions : List Transaction
  pub details : List TransactionDetail

pub record World : Type 0 where
  pub db : Db
  pub cache : Entries
  pub tick : ℕ

-- The goroutines that `Create` of the transaction service starts, by what each reads.
pub data Goroutine : Type 0 where
  reads_contract reads_customer reads_asset reads_limit : Goroutine

pub record Platform : Type 0 where
  pub customers : Table Customer
  pub documents : Table CustomerDocument
  pub limits : Table CreditLimit
  pub assets : Table Asset
  pub transactions : Table Transaction
  pub details : Table TransactionDetail
  -- the inserts of a slice of rows by one statement
  pub create_details :
      List TransactionDetail → List TransactionDetail → ℕ → Result (List TransactionDetail)
  -- `Preload`: the row with its associations read in; the flag asks for the customer too
  pub preload_transaction : Bool → Db → Transaction → ℕ → Result Transaction
  pub preload_transactions : Bool → Db → List Transaction → ℕ → Result (List Transaction)
  pub preload_documents : Db → Customer → ℕ → Result Customer
  -- what a DECIMAL(15,2) column keeps of a value
  pub decimal : Float64 → Float64
  -- the start and the commit of a database transaction, with the error if it fails
  pub begin : ℕ → Option Error
  pub commit : ℕ → Option Error
  -- the order in which the scheduler lets the goroutines read
  pub schedule : ℕ → List Goroutine
  pub redis : Redis
  pub now : ℕ → Time
  pub new_uuid : ℕ → Uuid
  -- `validate.Struct`
  pub check_create_asset : CreateAssetRequest → List FieldError
  pub check_update_asset : UpdateAssetRequest → List FieldError
  -- `json.Marshal` and `json.Unmarshal`
  pub marshal_customer : Customer → Option String
  pub unmarshal_customer : String → Option Customer
  pub marshal_asset : Asset → Option String
  pub unmarshal_asset : String → Option Asset
  -- texts: `String` of an identifier, `%d`, `%.2f`, and `Format` at a layout
  pub uuid_text : Uuid → String
  pub int_text : ℤ → String
  pub amount_text : Float64 → String
  pub format : String → Time → String
