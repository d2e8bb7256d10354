-- ===== src/Handler/Conflicts.antt =====
-- The tests of the customer handler for texts that no service gives.
use kredit_plus.Base.{
  ℕ, ◌+◌, true, if◌then◌else◌, String, append, len, len-append, str_eq, eq_iff, first_code,
  first_code-append, List, Option, none, some, ◌≡◌, ◌≢◌, refl, sym, ap, ◌∙◌, arith,
}
use kredit_plus.Entity.Error.{Uuid, Error, message, wrapped, validation_failed, error_text, join}
use kredit_plus.Entity.Customer.{
  CreateCustomerRequest, UploadDocumentRequest, validate_create, validate_upload,
}
use kredit_plus.Platform.World.{World, Platform}
use kredit_plus.Platform.Monad.Failures.{Fails, Fails-raise, Fails-pure, fails_rules}
use kredit_plus.Service.CreditLimit.{or_raise}
use kredit_plus.Service.Customer as Service
use kredit_plus.Handler.{Payload, Request, Reply, Http, report, give_created}
use kredit_plus.Handler.Statuses.{
  HasStatus, if-Lacks, report-Lacks, send-Lacks, answer-Lacks, parse_or-Lacks,
}
use kredit_plus.Handler.Customer.{create, upload_document, create_errors, upload_errors}

-- A text that starts otherwise.
other_start : (s t : String) → first_code s ≢ first_code t → s ≢ t
other_start s t h e = h (ap first_code e)

-- `text: cause` starts as the text does.
wrapped_start :
    (text : String) (x : Error) (t : String)
    → text ≢ ""
    → first_code text ≢ first_code t
    → error_text (wrapped text x) ≢ t
unfolding error_text
wrapped_start text x t nonempty h =
    other_start (error_text (wrapped text x)) t
      (λ e. h (sym (first_code-append text _ nonempty) ∙ e))

validation_start :
    (errors : List String) (t : String)
    → first_code t ≢ b'v'
    → error_text (validation_failed errors) ≢ t
unfolding validation_failed error_text
validation_start errors t h = other_start _ t (λ e. h (
    sym e
    ∙ first_code-append "validation failed: " (join "||" errors) (other_start _ _ (omega arith))))

-- no error of the service has the text that is tested
abbrev NotText : String → Error → Type 0
NotText t e = error_text e ≢ t

-- the text between the two halves of the tested text
filled :
    (a b s t : String)
    → len t ≢ len a + (len s + len b)
    → NotText t (message (append a (append s b)))
unfolding error_text
filled a b s t h e =
    h (sym (ap len e) ∙ (len-append a (append s b) ∙ ap (λ n. len a + n) (len-append s b)))

other_message : (s t : String) → first_code s ≢ first_code t → NotText t (message s)
unfolding error_text
other_message s t h = other_start s t h

abbrev duplicate_text : String
duplicate_text = "customer with NIK already exists"

abbrev document_text : String
document_text = "document type already exists for customer"

-- `failed to …: cause` is no text that starts otherwise.
failed_start :
    (text t : String)
    → first_code text ≡ b'f'
    → first_code t ≢ b'f'
    → (x : Error) → NotText t (wrapped text x)
failed_start text t h other x =
    let filled_in : text ≢ "" = λ e. absurd (omega (arith, ap first_code e, h)) in
    wrapped_start text x t filled_in (λ e. other (sym e ∙ h))

Fails-or_raise :
    {A : Type 0} (P : Error → Type 0) (a : Option A) (x : Error) → P x → Fails P (or_raise a x)
unfolding or_raise
Fails-or_raise P none x q = Fails-raise P x q
Fails-or_raise P (some a) x q = Fails-pure P a

create-NotText :
    (p : Platform) (req : CreateCustomerRequest)
    → Fails (NotText duplicate_text) (Service.create p req)
unfolding Service.create
create-NotText p req =
    let invalid =
      validation_start (validate_create req) duplicate_text (λ e. absurd (omega (arith, e))) in
    let failed = λ (text : String) (f : first_code text ≡ b'f').
      failed_start text duplicate_text f (λ e. absurd (omega (arith, e))) in
    let taken =
      filled "customer with NIK " " already exists" req.nik duplicate_text
        (λ e. absurd (omega (arith, e))) in
    search
      (
        fails_rules,
        invalid,
        failed "failed to check existing customer" refl,
        failed "failed to create customer" refl,
        taken,
      )
      depth 20

upload-NotText :
    (p : Platform) (id : Uuid) (req : UploadDocumentRequest)
    → Fails (NotText document_text) (Service.upload_document p id req)
unfolding Service.upload_document
upload-NotText p id req =
    let invalid =
      validation_start (validate_upload req) document_text (λ e. absurd (omega (arith, e))) in
    let failed = λ (text : String) (f : first_code text ≡ b'f').
      failed_start text document_text f (λ e. absurd (omega (arith, e))) in
    let unknown =
      other_message "customer not found" document_text (λ e. absurd (omega (arith, e))) in
    let inactive =
      other_message "cannot upload document for inactive customer" document_text
        (λ e. absurd (omega (arith, e))) in
    let taken =
      filled "document type " " already exists for customer" req.document_type document_text
        (λ e. absurd (omega (arith, e))) in
    search
      (
        fails_rules,
        Fails-or_raise,
        invalid,
        failed "failed to get customer" refl,
        failed "failed to check existing documents" refl,
        failed "failed to create document" refl,
        taken,
        unknown,
        inactive,
      )
      depth 20

abbrev conflict : ℕ
conflict = 409

server_error : 500 ≢ conflict
server_error n = absurd (omega (arith, n))

module _ (p : Platform) (h : Http) where
  -- none of the other responses has the status
  reported : (text : String) (e : Error) → ¬ (HasStatus conflict (report h 500 text e))
  reported text e = report-Lacks h conflict server_error 500 text e server_error

  accepted :
      (payload : Payload) (text : String) → ¬ (HasStatus conflict (give_created h payload text))
  unfolding give_created
  accepted payload text = send-Lacks h conflict server_error 201 _ (λ n. absurd (omega (arith, n)))

  no_match : (e : Error) (t : String) → NotText t e → str_eq (error_text e) t ≡ true → ⊥
  no_match e t q same = q ((eq_iff _ _).0 same)

  -- a test for a text, and what is answered where it fails
  tested :
      (e : Error) (t : String) (x y : Reply)
      → (str_eq (error_text e) t ≡ true → ¬ (HasStatus conflict x))
      → ¬ (HasStatus conflict y)
      → ¬ (HasStatus conflict (if str_eq (error_text e) t then x else y))
  tested e t x y f g = if-Lacks h conflict server_error (str_eq (error_text e) t) x y f g

  create_errors-Lacks :
      (e : Error) → NotText duplicate_text e → ¬ (HasStatus conflict (create_errors p h e))
  unfolding create_errors
  create_errors-Lacks e q =
      tested e duplicate_text (report h 409 "Customer already exists" e) _
        (λ same. absurd (no_match e duplicate_text q same)) (reported "Failed to create customer" e)

  upload_errors-Lacks :
      (e : Error) → NotText document_text e → ¬ (HasStatus conflict (upload_errors p h e))
  unfolding upload_errors
  upload_errors-Lacks e q =
      let stored =
        tested e document_text (report h 409 "Document already exists" e) _
          (λ same. absurd (no_match e document_text q same))
          (reported "Failed to upload document" e) in
      tested e "customer not found" (report h 404 "Customer not found" e) _
        (λ _.
          report-Lacks h conflict server_error 404 "Customer not found" e
            (λ n. absurd (omega (arith, n))))
        stored

  -- Whatever the request and the tables, the answer to the creation of a customer and the answer to
  -- the upload of a document never have the status 409.
  pub no_conflict :
      (r : Request) (w : World)
      → (¬ (HasStatus conflict (create p h r w).0))
        × (¬ (HasStatus conflict (upload_document p h r w).0))
  unfolding create upload_document
  no_conflict r w = (
    parse_or-Lacks h conflict server_error _ _ _ w (λ n. absurd (omega (arith, n)))
        (λ req.
          answer-Lacks h conflict server_error (NotText duplicate_text) _ _ (Service.create p req) w
            (create-NotText p req) create_errors-Lacks (λ c. accepted _ _)),
    parse_or-Lacks h conflict server_error _ _ _ w (λ n. absurd (omega (arith, n)))
        (λ id.
          parse_or-Lacks h conflict server_error _ _ _ w (λ n. absurd (omega (arith, n)))
            (λ req.
              answer-Lacks h conflict server_error (NotText document_text) _ _
                (Service.upload_document p id req) w (upload-NotText p id req) upload_errors-Lacks
                (λ d. accepted _ _))),
  )
