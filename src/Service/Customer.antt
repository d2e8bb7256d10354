-- ===== src/Service/Customer.antt =====
-- internal/service/customer.go
pub mod Effects
pub mod Rules
pub mod Uploads
use kredit_plus.Base.{ℕ, pos, true, not, List, [], map, String, append, some, is_empty, len, ◌==◌}
use kredit_plus.Entity.Error.{Uuid, message, validation_failed}
use kredit_plus.Entity.Customer.{
  Customer, CustomerDocument, CustomerResponse, CustomerDocumentResponse, CreateCustomerRequest,
  UpdateCustomerRequest, UploadDocumentRequest, DocumentFilterRequest, validate_create,
  validate_update, validate_upload, validate_filter, to_filter,
}
use kredit_plus.Platform.World.{Platform}
use kredit_plus.Platform.Monad.{M, pure, wrap, ◌>>=◌, ◌>>◌, fail_if, now, new_uuid}
use kredit_plus.Repository.Customer as Repo
use kredit_plus.Service.CreditLimit.{rfc3339, or_raise, is_set}

module _ (p : Platform) where
  unfoldable pub to_document_response : CustomerDocument → CustomerDocumentResponse
  to_document_response d = record {
    id = d.id;
    customer_id = d.customer_id;
    document_type = d.document_type;
    document_url = d.document_url;
    created_at = p.format rfc3339 d.created_at;
    updated_at = p.format rfc3339 d.updated_at;
  }

  unfoldable pub to_response : Customer → CustomerResponse
  unfolding to_document_response
  to_response c = record {
    id = c.id;
    nik = c.nik;
    full_name = c.full_name;
    legal_name = c.legal_name;
    birth_place = c.birth_place;
    birth_date = p.format "2006-01-02" c.birth_date;
    salary = c.salary;
    is_active = c.is_active;
    documents = map to_document_response c.documents;
    created_at = p.format rfc3339 c.created_at;
    updated_at = p.format rfc3339 c.updated_at;
  }

  unfoldable pub create : CreateCustomerRequest → M CustomerResponse
  create req = do
    fail_if (not (is_empty (validate_create req))) (validation_failed (validate_create req))
    existing ← wrap "failed to check existing customer" (Repo.get_by_nik p req.nik)
    fail_if (is_set existing)
        (message (append "customer with NIK " (append req.nik " already exists")))
    id ← new_uuid p
    created_at ← now p
    updated_at ← now p
    let customer : Customer = record {
      id = id;
      nik = req.nik;
      full_name = req.full_name;
      legal_name = req.legal_name;
      birth_place = req.birth_place;
      birth_date = req.birth_date;
      salary = req.salary;
      is_active = true;
      created_at = created_at;
      updated_at = updated_at;
      documents = [];
    }
    wrap "failed to create customer" (Repo.create p customer)
    pure (to_response customer)

  unfoldable pub get_by_id : Uuid → M CustomerResponse
  get_by_id id = do
    row ← wrap "failed to get customer" (Repo.get_by_id p id)
    customer ← or_raise row (message "customer not found")
    pure (to_response customer)

  unfoldable pub get_by_nik : String → M CustomerResponse
  get_by_nik nik = do
    fail_if (not (len nik == 16)) (message "invalid NIK format")
    row ← wrap "failed to get customer" (Repo.get_by_nik p nik)
    customer ← or_raise row (message "customer not found")
    pure (to_response customer)

  unfoldable pub update : Uuid → UpdateCustomerRequest → M CustomerResponse
  update id req = do
    fail_if (not (is_empty (validate_update req))) (validation_failed (validate_update req))
    row ← wrap "failed to get customer" (Repo.get_by_id p id)
    old ← or_raise row (message "customer not found")
    fail_if (not old.is_active) (message "cannot update inactive customer")
    updated_at ← now p
    let customer : Customer = record old {
      full_name = req.full_name;
      legal_name = req.legal_name;
      birth_place = req.birth_place;
      birth_date = req.birth_date;
      salary = req.salary;
      updated_at = updated_at;
    }
    wrap "failed to update customer" (Repo.update p customer)
    pure (to_response customer)

  unfoldable pub delete : Uuid → M (Unit {0})
  delete id = do
    row ← wrap "failed to get customer" (Repo.get_by_id p id)
    customer ← or_raise row (message "customer not found")
    fail_if (not customer.is_active) (message "customer is already inactive")
    wrap "failed to delete customer" (Repo.delete p id)

  unfoldable pub upload_document : Uuid → UploadDocumentRequest → M CustomerDocumentResponse
  upload_document customer_id req = do
    fail_if (not (is_empty (validate_upload req))) (validation_failed (validate_upload req))
    row ← wrap "failed to get customer" (Repo.get_by_id p customer_id)
    customer ← or_raise row (message "customer not found")
    fail_if (not customer.is_active) (message "cannot upload document for inactive customer")
    (existing, total) ← wrap "failed to check existing documents" (
        Repo.get_documents p (record {
          customer_id = customer_id;
          document_type = some req.document_type;
          limit = pos 1;
          offset = pos 0;
        }))
    fail_if (not (is_empty existing)) (
        message (append "document type " (append req.document_type " already exists for customer")))
    id ← new_uuid p
    created_at ← now p
    updated_at ← now p
    let doc : CustomerDocument = record {
      id = id;
      customer_id = customer_id;
      document_type = req.document_type;
      document_url = req.document_url;
      created_at = created_at;
      updated_at = updated_at;
    }
    wrap "failed to create document" (Repo.create_document p doc)
    pure (to_document_response doc)

  unfoldable pub get_documents :
      Uuid → DocumentFilterRequest → M (List CustomerDocumentResponse × ℕ)
  get_documents customer_id filter = do
    fail_if (not (is_empty (validate_filter filter))) (validation_failed (validate_filter filter))
    row ← wrap "failed to get customer" (Repo.get_by_id p customer_id)
    customer ← or_raise row (message "customer not found")
    (docs, total) ←
        wrap "failed to get documents" (Repo.get_documents p (to_filter filter customer_id))
    pure (map to_document_response docs, total)
