-- ===== src/Entity/Error.antt =====
-- The errors of internal/entity (the sentinel values, told apart by identity, and their texts) and
-- what `fmt.Errorf` makes of them.
use kredit_plus.Base.{ℕ, String, append, List, [], ◌∷◌, Bool, true, false}

-- `uuid.UUID`, by its 128 bits read as a number; `uuid.Nil` is 0.
abbrev pub Uuid : Type 0
Uuid = ℕ

abbrev pub nil_uuid : Uuid
nil_uuid = 0

-- `CreditLimitError` and `TransactionError` have the same two fields.
pub record CodedError : Type 0 where
  pub code : String
  pub message : String

-- The method `Error` of both.
unfoldable pub coded_text : CodedError → String
coded_text e = append e.code (append ": " e.message)

pub data Error : Type 0 where
  credit_limit_not_found insufficient_credit_limit : Error
  duplicate_credit_limit credit_limit_in_use : Error
  transaction_not_found duplicate_contract invalid_status : Error
  -- the panic of a nil pointer that is dereferenced
  nil_dereference : Error
  -- an error with a text and no cause
  message : String → Error
  -- `fmt.Errorf("text: %w", cause)`
  wrapped : String → Error → Error

coded : String → String → String
unfolding coded_text
coded c m = coded_text (record { code = c; message = m })

-- `err.Error()`
unfoldable pub error_text : Error → String
unfolding coded
error_text credit_limit_not_found = coded "CREDIT_LIMIT_NOT_FOUND" "credit limit not found"
error_text insufficient_credit_limit = coded "INSUFFICIENT_CREDIT_LIMIT" "insufficient credit limit"
error_text duplicate_credit_limit =
    coded "DUPLICATE_CREDIT_LIMIT" "credit limit already exists for this tenor"
error_text credit_limit_in_use = coded "CREDIT_LIMIT_IN_USE" "credit limit is currently in use"
error_text transaction_not_found = coded "TRANSACTION_NOT_FOUND" "transaction not found"
error_text duplicate_contract = coded "DUPLICATE_CONTRACT" "contract number already exists"
error_text invalid_status = coded "INVALID_STATUS" "invalid transaction status"
error_text nil_dereference = "runtime error: invalid memory address or nil pointer dereference"
error_text (message s) = s
error_text (wrapped s e) = append s (append ": " (error_text e))

-- `if cond { errors = append(errors, text) }`
abbrev pub check : Bool → String → List String
check true text = text ∷ []
check false text = []

-- `strings.Join(texts, sep)`
unfoldable pub join : String → List String → String
join sep [] = ""
join sep (s ∷ []) = s
join sep (s ∷ (t ∷ ts)) = append s (append sep (join sep (t ∷ ts)))

-- `fmt.Errorf("validation failed: %v", strings.Join(errors, "||"))`
unfoldable pub validation_failed : List String → Error
unfolding join
validation_failed errors = message (append "validation failed: " (join "||" errors))
