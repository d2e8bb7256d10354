-- ===== src/Handler/Customer.antt =====
-- internal/handler/customer.go
use kredit_plus.Base.{
  pos, Bool, false, not, ◌==◌, if◌then◌else◌, String, str_eq, len, [], ◌∷◌, Option, none, some,
}
use kredit_plus.Entity.Error.{Uuid, Error, error_text}
use kredit_plus.Entity.Customer.{DocumentType, DocumentFilterRequest, is_valid_type}
use kredit_plus.Platform.World.{Platform}
use kredit_plus.Service.Customer as Service
use kredit_plus.Response.{with_pagination}
use kredit_plus.Handler.{
  Request, Reply, Http, Handler, customer, document, documents, send, refuse, report, give,
  give_created, parse_or, answer, asked_page,
}

-- `c.Query("document_type")`: no type is asked for, or one that may be invalid
abbrev pub asked_type : String → Option DocumentType
asked_type text = if str_eq text "" then none else some text

abbrev pub asked_documents : Request → DocumentFilterRequest
asked_documents r = record {
  document_type = asked_type (r.query "document_type" "");
  page = (asked_page r).0;
  per_page = (asked_page r).1;
}

abbrev pub invalid_document_type : String → Bool
invalid_document_type text = if str_eq text "" then false else not (is_valid_type text)

module _ (p : Platform) (h : Http) where
  -- the switch on the errors of all methods with a customer's identifier or NIK
  unfoldable pub not_found_or : String → Error → Reply
  not_found_or text e =
      if str_eq (error_text e) "customer not found"
      then report h 404 "Customer not found" e
      else report h 500 text e

  unfoldable pub create_errors : Error → Reply
  create_errors e =
      if str_eq (error_text e) "customer with NIK already exists"
      then report h 409 "Customer already exists" e
      else report h 500 "Failed to create customer" e

  unfoldable pub create : Request → Handler
  create r = parse_or h (h.create_customer r.body) "Invalid request body" λ req.
      answer h (Service.create p req) create_errors
        (λ c. give_created h (customer c) "Customer created successfully")

  unfoldable pub get_by_id : Request → Handler
  get_by_id r = parse_or h (h.parse_uuid (r.params "id")) "Invalid customer ID" λ id.
      answer h (Service.get_by_id p id) (not_found_or "Failed to get customer")
        (λ c. give h (some (customer c)) "Customer retrieved successfully")

  unfoldable pub get_by_nik : Request → Handler
  get_by_nik r =
      if not (len (r.params "nik") == 16)
      then (λ w. (refuse h 400 "Invalid NIK format" ("NIK must be 16 characters" ∷ []), w))
      else answer h (Service.get_by_nik p (r.params "nik")) (not_found_or "Failed to get customer")
          (λ c. give h (some (customer c)) "Customer retrieved successfully")

  unfoldable pub update : Request → Handler
  update r = parse_or h (h.parse_uuid (r.params "id")) "Invalid customer ID" λ id.
      parse_or h (h.update_customer r.body) "Invalid request body" λ req.
        answer h (Service.update p id req) (not_found_or "Failed to update customer")
          (λ c. give h (some (customer c)) "Customer updated successfully")

  unfoldable pub delete : Request → Handler
  delete r = parse_or h (h.parse_uuid (r.params "id")) "Invalid customer ID" λ id.
      answer h (Service.delete p id) (not_found_or "Failed to delete customer")
        (λ _. give h none "Customer deleted successfully")

  unfoldable pub upload_errors : Error → Reply
  upload_errors e =
      if str_eq (error_text e) "customer not found"
      then report h 404 "Customer not found" e
      else if str_eq (error_text e) "document type already exists for customer"
      then report h 409 "Document already exists" e
      else report h 500 "Failed to upload document" e

  unfoldable pub upload_document : Request → Handler
  upload_document r = parse_or h (h.parse_uuid (r.params "id")) "Invalid customer ID" λ id.
      parse_or h (h.upload_document r.body) "Invalid request body" λ req.
        answer h (Service.upload_document p id req) upload_errors
          (λ d. give_created h (document d) "Document uploaded successfully")

  -- `GetDocuments` from the filter on
  unfoldable pub list_documents : Uuid → DocumentFilterRequest → Handler
  list_documents id filter =
      answer h (Service.get_documents p id filter) (not_found_or "Failed to get documents")
        (λ found. send h 200 (
          with_pagination (documents found.0) "Documents retrieved successfully" filter.page
            filter.per_page (pos found.1)))

  unfoldable pub get_documents : Request → Handler
  get_documents r = parse_or h (h.parse_uuid (r.params "id")) "Invalid customer ID" λ id.
      if invalid_document_type (r.query "document_type" "")
      then (λ w. (
        refuse h 400 "Invalid document type"
            ("document_type must be either 'ktp' or 'selfie'" ∷ []),
        w,
      ))
      else list_documents id (asked_documents r)
