-- ===== src/Entity/Validation.antt =====
-- What the `Validate` methods accept, and the page that a valid filter asks the database for.
use kredit_plus.Base.{
  zero, suc, ℕ, ◌+◌, ◌*◌, ◌^◌, ◌≤◌, ℤ, pos, negsuc, ◌-ℤ◌, ◌*ℤ◌, wrap64, wrap64-id, ltb_ℤ, Bool,
  true, false, not, ◌||◌, String, str_eq, List, [], ◌∷◌, ◌++◌, ◌==◌, ◌≡◌, ◌≢◌, ◌↔◌, ◌⊎◌, ap, ◌∙◌,
  arith, eq_iff, subst,
}
use kredit_plus.Float.{lt, le, of_int, zero_float}
use kredit_plus.Entity.Error.{Uuid, nil_uuid, check}
use kredit_plus.Entity.CreditLimit.{CreateCreditLimitRequest, is_valid_tenor}
use kredit_plus.Entity.CreditLimit as CreditLimit
use kredit_plus.Entity.Customer as Customer
use kredit_plus.Entity.Customer.{
  UploadDocumentRequest, DocumentFilterRequest, validate_upload, is_valid_type,
}
use kredit_plus.Entity.Transaction as Transaction
use kredit_plus.Entity.Transaction.{
  CreateTransactionRequest, TransactionFilterRequest, is_valid_status,
}

-- the tenors that a limit may have
abbrev pub IsTenor : ℤ → Type 0
IsTenor z = (z ≡ pos 1) ⊎ ((z ≡ pos 2) ⊎ ((z ≡ pos 3) ⊎ (z ≡ pos 6)))

pub is_valid_tenor_iff : (z : ℤ) → (is_valid_tenor z ≡ true) ↔ IsTenor z
unfolding is_valid_tenor
is_valid_tenor_iff (pos n) = ground arith
is_valid_tenor_iff (negsuc n) = ground arith

check_nil : (c : Bool) (text : String) → (check c text ≡ []) ↔ (c ≡ false)
check_nil true text = ground arith
check_nil false text = ground arith

append_nil : {A : Type 0} (xs ys : List A) → (xs ++ ys ≡ []) ↔ ((xs ≡ []) × (ys ≡ []))
append_nil [] ys = ground arith
append_nil (x ∷ xs) ys = ground arith

-- A check in front of others passes with them.
check_first :
    (c : Bool) (text : String) (rest : List String)
    → (check c text ++ rest ≡ []) ↔ ((c ≡ false) × (rest ≡ []))
check_first true text rest = ground arith
check_first false text rest = ground arith

-- A request for a credit limit is valid exactly when it names a customer, a tenor of 1, 2, 3 or 6
-- months and an amount above zero.
pub limit_request_iff :
    (r : CreateCreditLimitRequest)
    → (CreditLimit.validate r ≡ []) ↔ (
        (r.customer_id ≢ nil_uuid) × IsTenor r.tenor_month × (le r.limit_amount zero_float ≡ false))
unfolding CreditLimit.validate
limit_request_iff r = ground (
  arith,
  check_first (r.customer_id == nil_uuid) "customer_id is required" (
      check (not (is_valid_tenor r.tenor_month)) "tenor_month must be 1, 2, 3, or 6"
      ++ check (le r.limit_amount zero_float) "limit_amount must be greater than 0"),
  check_first (not (is_valid_tenor r.tenor_month)) "tenor_month must be 1, 2, 3, or 6"
      (check (le r.limit_amount zero_float) "limit_amount must be greater than 0"),
  check_nil (le r.limit_amount zero_float) "limit_amount must be greater than 0",
  is_valid_tenor_iff r.tenor_month,
)

-- the errors from the interest rate on
abbrev rate_errors : CreateTransactionRequest → List String
rate_errors r =
    check (lt r.interest_rate zero_float || lt (of_int (pos 100)) r.interest_rate)
      "interest_rate must be between 0 and 100"
    ++ check (str_eq r.contract_number "") "contract_number is required"

-- A purchase request is valid exactly when it names a customer, an asset, a tenor of 1, 2, 3 or 6
-- months and a contract number, its fee is not below zero and its rate is from 0 to 100.
pub purchase_request_iff :
    (r : CreateTransactionRequest)
    → (Transaction.validate r ≡ []) ↔ (
        (r.customer_id ≢ nil_uuid)
        × (r.asset_id ≢ nil_uuid)
        × IsTenor r.tenor_month
        × (lt r.admin_fee zero_float ≡ false)
        × ((lt r.interest_rate zero_float ≡ false)
            × (lt (of_int (pos 100)) r.interest_rate ≡ false))
        × (r.contract_number ≢ ""))
unfolding Transaction.validate
purchase_request_iff r =
    let fee =
      check_first (lt r.admin_fee zero_float) "admin_fee must not be negative" (rate_errors r) in
    let rate =
      check_first (lt r.interest_rate zero_float || lt (of_int (pos 100)) r.interest_rate)
        "interest_rate must be between 0 and 100"
        (check (str_eq r.contract_number "") "contract_number is required") in
    let tenor =
      check_first (not (is_valid_tenor r.tenor_month)) "tenor_month must be 1, 2, 3, or 6"
        (check (lt r.admin_fee zero_float) "admin_fee must not be negative" ++ rate_errors r) in
    let asset = check_first (r.asset_id == nil_uuid) "asset_id is required" (
      check (not (is_valid_tenor r.tenor_month)) "tenor_month must be 1, 2, 3, or 6"
      ++ (check (lt r.admin_fee zero_float) "admin_fee must not be negative" ++ rate_errors r)) in
    let customer = check_first (r.customer_id == nil_uuid) "customer_id is required" (
      check (r.asset_id == nil_uuid) "asset_id is required"
      ++ (check (not (is_valid_tenor r.tenor_month)) "tenor_month must be 1, 2, 3, or 6"
          ++ (check (lt r.admin_fee zero_float) "admin_fee must not be negative"
              ++ rate_errors r))) in
    ground (
      arith,
      fee,
      rate,
      tenor,
      asset,
      customer,
      check_nil (str_eq r.contract_number "") "contract_number is required",
      is_valid_tenor_iff r.tenor_month,
      eq_iff r.contract_number "",
    )

before_page : (n : ℕ) → pos (suc n) -ℤ pos 1 ≡ pos n
unfolding ◌-ℤ◌
before_page n = ground arith

times_pos : (a b : ℕ) → pos a *ℤ pos b ≡ pos (a * b)
unfolding ◌*ℤ◌
times_pos a b = ground arith

page_bounds :
    (m : ℕ) → ltb_ℤ (pos m) (pos 1) ≡ false → ltb_ℤ (pos 100) (pos m) ≡ false → (1 ≤ m) × (m ≤ 100)
page_bounds m h k = ground arith

-- the rows before a page fit the word, so their number is what the code computes
pub page_start :
    (n m : ℕ)
    → 1 ≤ m
    → n * m + 1 ≤ 2 ^ 63
    → wrap64 (wrap64 (pos (suc n) -ℤ pos 1) *ℤ pos m) ≡ pos (n * m)
page_start n zero l h = absurd (omega arith)
page_start n (suc k) l h =
    let n_fits : n + 1 ≤ 2 ^ 63 = omega arith in
    ap (λ z. wrap64 (z *ℤ pos (suc k))) (ap wrap64 (before_page n) ∙ wrap64-id n n_fits)
    ∙ ap wrap64 (times_pos n (suc k))
    ∙ wrap64-id (n * suc k) h

-- the page that a filter with no error in its numbers asks for
valid_page :
    (page per_page : ℤ) (rest : List String) (n m : ℕ)
    → page ≡ pos (suc n)
    → per_page ≡ pos m
    → n * m + 1 ≤ 2 ^ 63
    → check (ltb_ℤ page (pos 1)) "page must be greater than 0"
        ++ (check (ltb_ℤ per_page (pos 1)) "per_page must be greater than 0"
            ++ (check (ltb_ℤ (pos 100) per_page) "per_page must not exceed 100" ++ rest))
      ≡ []
    → (wrap64 (wrap64 (page -ℤ pos 1) *ℤ per_page) ≡ pos (n * m))
      × (per_page ≡ pos m)
      × (1 ≤ m)
      × (m ≤ 100)
valid_page page per_page rest n m e f h valid =
    let behind_page = ((check_first _ _ _).0 valid).1 in
    let (some_rows, behind_first) = (check_first _ _ _).0 behind_page in
    let few_rows = ((check_first _ _ _).0 behind_first).0 in
    let bounds =
      page_bounds m (subst (λ z. ltb_ℤ z (pos 1) ≡ false) f some_rows)
        (subst (λ z. ltb_ℤ (pos 100) z ≡ false) f few_rows) in
    (
      ap (λ z. wrap64 (wrap64 (z -ℤ pos 1) *ℤ per_page)) e
          ∙ ap (λ z. wrap64 (wrap64 (pos (suc n) -ℤ pos 1) *ℤ z)) f
          ∙ page_start n m bounds.0 h,
      f,
      bounds.0,
      bounds.1,
    )

-- For page n + 1 of m rows, where the rows before the page fit a 64-bit integer, a valid filter
-- asks the database to skip the n * m rows of the pages before it and to give m rows, 1 to 100.
pub transaction_page :
    (r : TransactionFilterRequest) (n m : ℕ)
    → r.page ≡ pos (suc n)
    → r.per_page ≡ pos m
    → n * m + 1 ≤ 2 ^ 63
    → Transaction.validate_filter r ≡ []
    → ((Transaction.to_filter r).offset ≡ pos (n * m))
      × ((Transaction.to_filter r).limit ≡ pos m)
      × (1 ≤ m)
      × (m ≤ 100)
unfolding Transaction.validate_filter Transaction.to_filter
transaction_page r n m e f h valid = valid_page _ _ _ n m e f h valid

-- The same page of a customer's documents.
pub document_page :
    (r : DocumentFilterRequest) (id : Uuid) (n m : ℕ)
    → r.page ≡ pos (suc n)
    → r.per_page ≡ pos m
    → n * m + 1 ≤ 2 ^ 63
    → Customer.validate_filter r ≡ []
    → ((Customer.to_filter r id).offset ≡ pos (n * m))
      × ((Customer.to_filter r id).limit ≡ pos m)
      × (1 ≤ m)
      × (m ≤ 100)
unfolding Customer.validate_filter Customer.to_filter
document_page r id n m e f h valid = valid_page _ _ _ n m e f h valid
