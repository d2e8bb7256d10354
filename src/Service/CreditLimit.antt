-- ===== src/Service/CreditLimit.antt =====
-- internal/service/credit_limit.go
pub mod Effects
pub mod Rules
pub mod Reading
pub mod Success
use kredit_plus.Base.{
  Bool, true, false, not, ◌&&◌, ℤ, List, map, String, Option, none, some, is_empty, if◌then◌else◌,
}
use kredit_plus.Float.{Float64, add, lt, eq, zero_float}
use kredit_plus.Entity.Error.{
  Uuid, Error, credit_limit_not_found, duplicate_credit_limit, credit_limit_in_use,
  insufficient_credit_limit, message, validation_failed,
}
use kredit_plus.Entity.CreditLimit.{
  CreditLimit, CreateCreditLimitRequest, CreditLimitResponse, validate, is_valid_tenor,
}
use kredit_plus.Platform.World.{Platform}
use kredit_plus.Platform.Monad.{M, pure, raise, wrap, ◌>>=◌, ◌>>◌, fail_if, now, new_uuid}
use kredit_plus.Repository.CreditLimit as Repo

-- `time.RFC3339`
abbrev pub rfc3339 : String
rfc3339 = "2006-01-02T15:04:05Z07:00"

-- `if x == nil { return nil, err }`
unfoldable pub or_raise : {A : Type 0} → Option A → Error → M A
or_raise none e = raise e
or_raise (some a) e = pure a

-- `x != nil`
abbrev pub is_set : {A : Type 0} → Option A → Bool
is_set none = false
is_set (some a) = true

module _ (p : Platform) where
  unfoldable pub to_response : CreditLimit → CreditLimitResponse
  to_response l = record {
    id = l.id;
    customer_id = l.customer_id;
    tenor_month = l.tenor_month;
    limit_amount = l.limit_amount;
    used_amount = l.used_amount;
    created_at = p.format rfc3339 l.created_at;
    updated_at = p.format rfc3339 l.updated_at;
  }

  unfoldable pub create : CreateCreditLimitRequest → M CreditLimitResponse
  create req = do
    fail_if (not (is_empty (validate req))) (validation_failed (validate req))
    existing ←
        wrap "failed to check existing credit limit"
          (Repo.get_by_customer_id_and_tenor p req.customer_id req.tenor_month)
    fail_if (is_set existing) duplicate_credit_limit
    id ← new_uuid p
    created_at ← now p
    updated_at ← now p
    let limit : CreditLimit = record {
      id = id;
      customer_id = req.customer_id;
      tenor_month = req.tenor_month;
      limit_amount = req.limit_amount;
      used_amount = zero_float;
      created_at = created_at;
      updated_at = updated_at;
    }
    wrap "failed to create credit limit" (Repo.create p limit)
    pure (to_response limit)

  unfoldable pub get_by_id : Uuid → M CreditLimitResponse
  get_by_id id = do
    row ← wrap "failed to get credit limit" (Repo.get_by_id p id)
    limit ← or_raise row credit_limit_not_found
    pure (to_response limit)

  unfoldable pub get_by_customer_id_and_tenor : Uuid → ℤ → M CreditLimitResponse
  get_by_customer_id_and_tenor customer_id tenor = do
    fail_if (not (is_valid_tenor tenor)) (message "invalid tenor month: must be 1, 2, 3, or 6")
    row ← wrap "failed to get credit limit" (Repo.get_by_customer_id_and_tenor p customer_id tenor)
    limit ← or_raise row credit_limit_not_found
    pure (to_response limit)

  unfoldable pub get_all_by_customer_id : Uuid → M (List CreditLimitResponse)
  get_all_by_customer_id customer_id = do
    limits ← wrap "failed to get credit limits" (Repo.get_all_by_customer_id p customer_id)
    pure (map to_response limits)

  unfoldable pub delete : Uuid → M (Unit {0})
  delete id = do
    row ← wrap "failed to get credit limit" (Repo.get_by_id p id)
    limit ← or_raise row credit_limit_not_found
    fail_if (lt zero_float limit.used_amount) credit_limit_in_use
    wrap "failed to delete credit limit" (Repo.delete p id)

  -- the part of `UpdateUsedAmount` behind the test for zero
  unfoldable pub change_used_amount : Uuid → Float64 → M (Unit {0})
  change_used_amount id amount = do
    row ← wrap "failed to get credit limit" (Repo.get_by_id p id)
    limit ← or_raise row credit_limit_not_found
    fail_if (lt amount zero_float && lt (add limit.used_amount amount) zero_float)
        (message "invalid amount: would result in negative used amount")
    fail_if (lt zero_float amount && lt limit.limit_amount (add limit.used_amount amount))
        insufficient_credit_limit
    wrap "failed to update credit limit used amount" (Repo.update_used_amount p id amount)

  unfoldable pub update_used_amount : Uuid → Float64 → M (Unit {0})
  update_used_amount id amount =
      if eq amount zero_float then pure tt else change_used_amount id amount
