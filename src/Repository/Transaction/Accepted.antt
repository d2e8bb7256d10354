-- ===== src/Repository/Transaction/Accepted.antt =====
-- What MySQL accepts of a purchase: the types of the columns, the keys and the foreign keys.
use Prim.Native.String.{[], ◌∷◌}
use kredit_plus.Base.{
  ◌<◌, ◌≤◌, String, str_eq, ℕ, zero, suc, ◌==◌, Bool, true, false, List, [], ◌∷◌, All, ◌≡◌,
}
use kredit_plus.Entity.Error.{Error}
use kredit_plus.Entity.Transaction.{
  Transaction, TransactionDetail, is_valid_status, is_valid_detail_status,
}
use kredit_plus.Entity.Customer.{Customer}
use kredit_plus.Entity.Asset.{Asset}
use kredit_plus.Platform.Table.{ok, failed, In}
use kredit_plus.Platform.World.{Db, Platform}
use kredit_plus.Platform.Laws.{SameTransaction}
use kredit_plus.Repository.CreditLimit.Success.{ChargeAnswers, fits_column}

-- at most n characters
unfoldable pub is_short : ℕ → String → Bool
is_short n [] = true
is_short zero (c ∷ s) = false
is_short (suc n) (c ∷ s) = is_short n s

-- A transaction that the columns of its table take.
pub record FitsColumns (t : Transaction) : Type 0 where
  pub otr_fits : fits_column t.otr_amount ≡ true
  pub fee_fits : fits_column t.admin_fee ≡ true
  pub interest_fits : fits_column t.interest_amount ≡ true
  pub installment_fits : fits_column t.installment_amount ≡ true
  pub contract_fits : is_short 50 t.contract_number ≡ true
  pub status_valid : is_valid_status t.status ≡ true

-- A row of an installment of `t` that the constraints of its table take.
pub record FitsDetail (db : Db) (t : Transaction) (d : TransactionDetail) : Type 0 where
  pub owner : d.transaction_id ≡ t.id
  pub amount_fits : fits_column d.amount ≡ true
  pub status_valid : is_valid_detail_status d.status ≡ true
  pub fresh : All (λ r. (r.id == d.id) ≡ false) db.details

abbrev pub Distinct : List TransactionDetail → Type 0
Distinct [] = Unit
Distinct (d ∷ ds) = All (λ x. (x.id == d.id) ≡ false) ds × Distinct ds

-- What the database answers to a purchase that begins while the tables are `db`: its reads do not
-- fail; it inserts a transaction with a new key and a new contract number of which the customer and
-- the asset stand, and behind it installments of it with new keys, where the columns take them; what
-- a read loads beside a row leaves its columns.
pub record SaleAnswers (p : Platform) (db : Db) : Type 0 where
  pub charges : ChargeAnswers p
  pub first_transaction :
      (matches : Transaction → Bool) (rows : List Transaction) (n : ℕ) (e : Error)
      → ¬ (p.transactions.first matches rows n ≡ failed e)
  pub insert_transaction :
      (t : Transaction) (c : Customer) (a : Asset) (n : ℕ)
      → All (λ r. (r.id == t.id) ≡ false) db.transactions
      → All (λ r. str_eq r.contract_number t.contract_number ≡ false) db.transactions
      → In c db.customers × (c.id ≡ t.customer_id)
      → In a db.assets × (a.id ≡ t.asset_id)
      → FitsColumns t
      → (rows : List Transaction) × (p.transactions.create t db.transactions n ≡ ok rows)
  pub insert_details :
      (t : Transaction) (rows : List Transaction) (n : ℕ) (d : TransactionDetail)
      (ds : List TransactionDetail) (m : ℕ)
      → p.transactions.create t db.transactions n ≡ ok rows
      → All (FitsDetail db t) (d ∷ ds)
      → Distinct (d ∷ ds)
      → (rows' : List TransactionDetail) × (p.create_details (d ∷ ds) db.details m ≡ ok rows')
  pub preload :
      (customer : Bool) (db' : Db) (t : Transaction) (n : ℕ)
      → (t' : Transaction) × (p.preload_transaction customer db' t n ≡ ok t')
        × (t'.id ≡ t.id)
        × SameTransaction t t'

-- The identifiers that are drawn from some moment on are new, and no two are the same.
pub record DrawsNew (p : Platform) (db : Db) (from : ℕ) : Type 0 where
  pub apart : (m n : ℕ) → m < n → (p.new_uuid n == p.new_uuid m) ≡ false
  pub transactions : (n : ℕ) → from ≤ n → All (λ t. (t.id == p.new_uuid n) ≡ false) db.transactions
  pub details : (n : ℕ) → from ≤ n → All (λ d. (d.id == p.new_uuid n) ≡ false) db.details
