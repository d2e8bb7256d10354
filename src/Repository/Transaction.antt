-- ===== src/Repository/Transaction.antt =====
-- internal/repository/transaction.go
pub mod Effects
pub mod Schedule
pub mod Create
pub mod Success
pub mod Accepted
use kredit_plus.Base.{
  ℕ, zero, suc, ℤ, pos, pos_part, ◌+ℤ◌, ltb_ℤ, ◌==◌, ◌||◌, Bool, true, false, List, [], ◌∷◌, String,
  str_eq, Option, some, none, ◌&&◌,
}
use kredit_plus.Float.{add, lt}
use kredit_plus.Time.{Time, add_month}
use kredit_plus.Entity.Error.{Uuid, message}
use kredit_plus.Entity.Transaction.{
  Transaction, TransactionDetail, TransactionStatus, TransactionFilterRepository,
}
use kredit_plus.Platform.World.{Db, Platform}
use kredit_plus.Platform.Monad.{
  M, pure, wrap, ◌>>=◌, ◌>>◌, fail_if, read, query, write, require, optional, transaction, now,
  new_uuid,
}
use kredit_plus.Repository.CreditLimit.{set_limits, of_tenor, insufficient}

abbrev pub set_transactions : List Transaction → Db → Db
set_transactions rows db = record db { transactions = rows }

abbrev pub set_details : List TransactionDetail → Db → Db
set_details rows db = record db { details = rows }

-- the `Where` clauses of `GetAllByCustomerID`: the status counts where it is set
abbrev pub of_customer : Uuid → TransactionStatus → Transaction → Bool
of_customer customer_id status t =
    t.customer_id == customer_id && (str_eq status "" || str_eq t.status status)

-- the row that the loop makes in round `i`, from the last due date
unfoldable pub installment : Transaction → ℤ → Time → Uuid → Time → Time → TransactionDetail
installment t i due id created_at updated_at = record {
  id = id;
  transaction_id = t.id;
  installment_number = i +ℤ pos 1;
  amount = t.installment_amount;
  due_date = add_month due;
  status = "pending";
  created_at = created_at;
  updated_at = updated_at;
}

module _ (p : Platform) where
  -- the loop of `generateInstallments`, with the rounds left, the index and the last due date
  unfoldable pub installments_from : Transaction → ℕ → ℤ → Time → M (List TransactionDetail)
  installments_from t zero i due = pure []
  installments_from t (suc rounds) i due = do
    id ← new_uuid p
    created_at ← now p
    updated_at ← now p
    rest ← installments_from t rounds (i +ℤ pos 1) (add_month due)
    pure (installment t i due id created_at updated_at ∷ rest)

  -- `generateInstallments`; `make` panics on a negative length
  unfoldable pub generate_installments : Transaction → M (List TransactionDetail)
  generate_installments t = do
    fail_if (ltb_ℤ t.tenor_month (pos 0)) (message "makeslice: len out of range")
    start ← now p
    installments_from t (pos_part t.tenor_month) (pos 0) start

  -- `Create`: the limit is locked and checked, and the asset's price is charged to it.
  unfoldable pub create : Transaction → M (Unit {0})
  create t = transaction p do
    limit ← wrap "failed to get credit limit" (
        query (λ db n. require (p.limits.first (of_tenor t.customer_id t.tenor_month) db.limits n)))
    fail_if (lt limit.limit_amount (add limit.used_amount t.otr_amount))
        (insufficient p limit t.otr_amount)
    wrap "failed to create transaction"
        (write (λ db n. p.transactions.create t db.transactions n) set_transactions)
    installments ← generate_installments t
    wrap "failed to create transaction details"
        (write (λ db n. p.create_details installments db.details n) set_details)
    wrap "failed to update credit limit" (
        write
          (λ db n.
            p.limits.save (record limit { used_amount = add limit.used_amount t.otr_amount })
              db.limits n)
          set_limits)

  -- a row with its associations, which further statements read
  unfoldable pub with_associations : String → Bool → Option Transaction → M (Option Transaction)
  with_associations text customer none = pure none
  with_associations text customer (some t) = do
    loaded ← wrap text (query (λ db n. p.preload_transaction customer db t n))
    pure (some loaded)

  unfoldable pub get_by_id : Uuid → M (Option Transaction)
  get_by_id id = do
    row ← read (λ db n. p.transactions.first (λ t. t.id == id) db.transactions n)
    found_row ← optional "failed to get transaction" row
    with_associations "failed to get transaction" true found_row

  unfoldable pub get_by_contract_number : String → M (Option Transaction)
  get_by_contract_number contract_number = do
    row ← read (λ db n.
        p.transactions.first (λ t. str_eq t.contract_number contract_number) db.transactions n)
    found_row ← optional "failed to get transaction by contract number" row
    with_associations "failed to get transaction by contract number" true found_row

  unfoldable pub get_all_by_customer_id :
      Uuid → TransactionFilterRepository → M (List Transaction × ℕ)
  get_all_by_customer_id customer_id filter = do
    total ← wrap "failed to count transactions" (
        query
          (λ db n. p.transactions.count (of_customer customer_id filter.status) db.transactions n))
    rows ← wrap "failed to get transactions" (
        query (λ db n.
          p.transactions.find
            (record {
              matches = of_customer customer_id filter.status;
              order = "created_at DESC";
              limit = some filter.limit;
              offset = some filter.offset;
            })
            db.transactions n))
    loaded ←
        wrap "failed to get transactions" (query (λ db n. p.preload_transactions false db rows n))
    pure (loaded, total)

  unfoldable pub update_status : Uuid → TransactionStatus → M (Unit {0})
  update_status id status = transaction p do
    t ←
        wrap "failed to get transaction"
          (query (λ db n. require (p.transactions.first (λ t. t.id == id) db.transactions n)))
    wrap "failed to update transaction status" (
        write
          (λ db n.
            p.transactions.update (λ row. row.id == t.id) (λ row. record row { status = status })
              db.transactions n)
          set_transactions)
