-- ===== src/Repository/CreditLimit.antt =====
-- internal/repository/credit_limit.go
pub mod Effects
pub mod Success
use kredit_plus.Base.{ℤ, eqb_ℤ, ◌==◌, ◌&&◌, Bool, List, append, Option, none}
use kredit_plus.Float.{Float64, add, sub, lt, zero_float}
use kredit_plus.Entity.Error.{Uuid, Error, message, wrapped}
use kredit_plus.Entity.CreditLimit.{CreditLimit}
use kredit_plus.Platform.Table.{Fetch, found, missing, failed}
use kredit_plus.Platform.World.{Db, Platform}
use kredit_plus.Platform.Monad.{
  M, pure, raise, wrap, ◌>>=◌, ◌>>◌, fail_if, read, query, write, require, optional, transaction,
}

abbrev pub set_limits : List CreditLimit → Db → Db
set_limits rows db = record db { limits = rows }

-- `"customer_id = ? AND tenor_month = ?"`
abbrev pub of_tenor : Uuid → ℤ → CreditLimit → Bool
of_tenor customer_id tenor l = l.customer_id == customer_id && eqb_ℤ l.tenor_month tenor

module _ (p : Platform) where
  unfoldable pub create : CreditLimit → M (Unit {0})
  create limit = transaction p (
      wrap "failed to create credit limit"
        (write (λ db n. p.limits.create limit db.limits n) set_limits))

  unfoldable pub get_by_id : Uuid → M (Option CreditLimit)
  get_by_id id = do
    row ← read (λ db n. p.limits.first (λ l. l.id == id) db.limits n)
    optional "failed to get credit limit" row

  unfoldable pub get_by_customer_id_and_tenor : Uuid → ℤ → M (Option CreditLimit)
  get_by_customer_id_and_tenor customer_id tenor = do
    row ← read (λ db n. p.limits.first (of_tenor customer_id tenor) db.limits n)
    optional "failed to get credit limit" row

  unfoldable pub get_all_by_customer_id : Uuid → M (List CreditLimit)
  get_all_by_customer_id customer_id = wrap "failed to get credit limits" (
      query (λ db n.
        p.limits.find
          (record {
            matches = λ l. l.customer_id == customer_id;
            order = "tenor_month ASC";
            limit = none;
            offset = none;
          })
          db.limits n))

  -- `fmt.Errorf("insufficient credit limit: available %.2f, requested %.2f", …)`
  unfoldable pub insufficient : CreditLimit → Float64 → Error
  insufficient l amount = message (
      append "insufficient credit limit: available " (
        append (p.amount_text (sub l.limit_amount l.used_amount))
          (append ", requested " (p.amount_text amount))))

  -- `UpdateUsedAmount`: the amount is added to what the locked row holds.
  unfoldable pub update_used_amount : Uuid → Float64 → M (Unit {0})
  update_used_amount id amount = transaction p do
    limit ←
        wrap "failed to get credit limit for update"
          (query (λ db n. require (p.limits.first (λ l. l.id == id) db.limits n)))
    fail_if (lt limit.limit_amount (add limit.used_amount amount)) (insufficient limit amount)
    wrap "failed to update credit limit used amount" (
        write
          (λ db n.
            p.limits.save (record limit { used_amount = add limit.used_amount amount }) db.limits n)
          set_limits)

  found_for_deletion : Fetch CreditLimit → M CreditLimit
  found_for_deletion (found l) = pure l
  found_for_deletion missing = raise (message "credit limit not found")
  found_for_deletion (failed e) = raise (wrapped "failed to get credit limit for deletion" e)

  unfoldable pub delete : Uuid → M (Unit {0})
  unfolding found_for_deletion
  delete id = transaction p do
    row ← read (λ db n. p.limits.first (λ l. l.id == id) db.limits n)
    limit ← found_for_deletion row
    fail_if (lt zero_float limit.used_amount)
        (message "cannot delete credit limit: limit is currently in use")
    wrap "failed to delete credit limit"
        (write (λ db n. p.limits.delete limit db.limits n) set_limits)
