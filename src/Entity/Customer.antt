-- ===== src/Entity/Customer.antt =====
-- internal/entity/customer.go. The associations `CreditLimits`, `Transactions` and, of a document,
-- `Customer` are never loaded and are left out.
use kredit_plus.Base.{
  ℤ, pos, ◌-ℤ◌, ◌*ℤ◌, wrap64, ltb_ℤ, ltb, ◌==◌, len, Bool, false, ◌||◌, not, String, str_eq, List,
  ◌++◌, Option, none, some,
}
use kredit_plus.Float.{Float64, le, zero_float}
use kredit_plus.Time.{Time, is_zero}
use kredit_plus.Entity.Error.{Uuid, check}

-- a string type
abbrev pub DocumentType : Type 0
DocumentType = String

pub record CustomerDocument : Type 0 where
  pub id : Uuid
  pub customer_id : Uuid
  pub document_type : DocumentType
  pub document_url : String
  pub created_at : Time
  pub updated_at : Time

pub record Customer : Type 0 where
  pub id : Uuid
  pub nik : String
  pub full_name : String
  pub legal_name : String
  pub birth_place : String
  pub birth_date : Time
  pub salary : Float64
  pub is_active : Bool
  pub created_at : Time
  pub updated_at : Time
  pub documents : List CustomerDocument

pub record CreateCustomerRequest : Type 0 where
  pub nik : String
  pub full_name : String
  pub legal_name : String
  pub birth_place : String
  pub birth_date : Time
  pub salary : Float64

pub record UpdateCustomerRequest : Type 0 where
  pub full_name : String
  pub legal_name : String
  pub birth_place : String
  pub birth_date : Time
  pub salary : Float64

pub record UploadDocumentRequest : Type 0 where
  pub document_type : DocumentType
  pub document_url : String

pub record DocumentFilterRequest : Type 0 where
  pub document_type : Option DocumentType
  pub page : ℤ
  pub per_page : ℤ

pub record DocumentFilterRepository : Type 0 where
  pub customer_id : Uuid
  pub document_type : Option DocumentType
  pub limit : ℤ
  pub offset : ℤ

pub record CustomerDocumentResponse : Type 0 where
  pub id : Uuid
  pub customer_id : Uuid
  pub document_type : DocumentType
  pub document_url : String
  pub created_at : String
  pub updated_at : String

pub record CustomerResponse : Type 0 where
  pub id : Uuid
  pub nik : String
  pub full_name : String
  pub legal_name : String
  pub birth_place : String
  pub birth_date : String
  pub salary : Float64
  pub is_active : Bool
  pub documents : List CustomerDocumentResponse
  pub created_at : String
  pub updated_at : String

-- `DocumentType.IsValid`
unfoldable pub is_valid_type : DocumentType → Bool
is_valid_type dt = str_eq dt "ktp" || str_eq dt "selfie"

-- the tests that two `Validate` methods share, from the full name on
profile_errors : String → String → String → Time → Float64 → List String
profile_errors full_name legal_name birth_place birth_date salary =
    check (str_eq full_name "") "full name is required"
    ++ (check (ltb 100 (len full_name)) "full name must not exceed 100 characters"
        ++ (check (str_eq legal_name "") "legal name is required"
            ++ (check (ltb 100 (len legal_name)) "legal name must not exceed 100 characters"
                ++ (check (str_eq birth_place "") "birth place is required"
                    ++ (check (is_zero birth_date) "birth date is required"
                        ++ check (le salary zero_float) "salary must be greater than 0")))))

-- `CreateCustomerRequest.Validate`
unfoldable pub validate_create : CreateCustomerRequest → List String
unfolding profile_errors
validate_create r =
    check (not (len r.nik == 16)) "NIK must be 16 characters"
    ++ profile_errors r.full_name r.legal_name r.birth_place r.birth_date r.salary

-- `UpdateCustomerRequest.Validate`
unfoldable pub validate_update : UpdateCustomerRequest → List String
unfolding profile_errors
validate_update r = profile_errors r.full_name r.legal_name r.birth_place r.birth_date r.salary

-- `UploadDocumentRequest.Validate`
unfoldable pub validate_upload : UploadDocumentRequest → List String
unfolding is_valid_type
validate_upload r =
    check (not (is_valid_type r.document_type))
      "invalid document type, must be either 'ktp' or 'selfie'"
    ++ (check (str_eq r.document_url "") "document URL is required"
        ++ check (ltb (len r.document_url) 10 || ltb 255 (len r.document_url))
            "document URL must be between 10 and 255 characters")

-- a pointer to a document type that is set and not valid
unfoldable pub invalid_type : Option DocumentType → Bool
unfolding is_valid_type
invalid_type none = false
invalid_type (some dt) = not (is_valid_type dt)

-- `DocumentFilterRequest.Validate`
unfoldable pub validate_filter : DocumentFilterRequest → List String
unfolding invalid_type
validate_filter r =
    check (ltb_ℤ r.page (pos 1)) "page must be greater than 0"
    ++ (check (ltb_ℤ r.per_page (pos 1)) "per_page must be greater than 0"
        ++ (check (ltb_ℤ (pos 100) r.per_page) "per_page must not exceed 100"
            ++ check (invalid_type r.document_type) "invalid document type"))

-- `ToDocumentFilterRepo`, in 64-bit integers
unfoldable pub to_filter : DocumentFilterRequest → Uuid → DocumentFilterRepository
to_filter r customer_id = record {
  customer_id = customer_id;
  document_type = r.document_type;
  limit = r.per_page;
  offset = wrap64 (wrap64 (r.page -ℤ pos 1) *ℤ r.per_page);
}
