-- ===== src/Entity/CreditLimit.antt =====
-- internal/entity/credit_limit.go. The association `Customer` is never loaded and is left out.
use kredit_plus.Base.{ℤ, pos, Bool, ◌||◌, not, ◌==◌, eqb_ℤ, String, List, ◌++◌}
use kredit_plus.Float.{Float64, le, zero_float}
use kredit_plus.Time.{Time}
use kredit_plus.Entity.Error.{Uuid, nil_uuid, check}

pub record CreditLimit : Type 0 where
  pub id : Uuid
  pub customer_id : Uuid
  pub tenor_month : ℤ
  pub limit_amount : Float64
  pub used_amount : Float64
  pub created_at : Time
  pub updated_at : Time

pub record CreateCreditLimitRequest : Type 0 where
  pub customer_id : Uuid
  pub tenor_month : ℤ
  pub limit_amount : Float64

pub record CreditLimitResponse : Type 0 where
  pub id : Uuid
  pub customer_id : Uuid
  pub tenor_month : ℤ
  pub limit_amount : Float64
  pub used_amount : Float64
  pub created_at : String
  pub updated_at : String

-- the map `validTenors`
unfoldable pub is_valid_tenor : ℤ → Bool
is_valid_tenor tenor =
    eqb_ℤ tenor (pos 1) || eqb_ℤ tenor (pos 2) || eqb_ℤ tenor (pos 3) || eqb_ℤ tenor (pos 6)

-- `CreateCreditLimitRequest.Validate`
unfoldable pub validate : CreateCreditLimitRequest → List String
validate r =
    check (r.customer_id == nil_uuid) "customer_id is required"
    ++ (check (not (is_valid_tenor r.tenor_month)) "tenor_month must be 1, 2, 3, or 6"
        ++ check (le r.limit_amount zero_float) "limit_amount must be greater than 0")
