-- ===== src/Service/Customer/Uploads.antt =====
-- `UploadDocument` of the customer service: what it does to the tables when it succeeds.
use kredit_plus.Base.{
  ℕ, ℤ, suc, false, ltb, leb_ℤ, pos, ◌&&◌, List, [], ◌∷◌, ◌++◌, All, some, String, str_eq, ◌==◌,
  ◌≡◌, refl, sym, ap, ◌∙◌, subst, arith,
}
use kredit_plus.Entity.Error.{Uuid}
use kredit_plus.Entity.Customer.{
  CustomerDocument, CustomerDocumentResponse, UploadDocumentRequest, DocumentFilterRepository,
  validate_upload,
}
use kredit_plus.Platform.Table.{ok}
use kredit_plus.Platform.World.{Db, World, Platform}
use kredit_plus.Platform.Laws.{IsPlatform}
use kredit_plus.Platform.Monad.{step}
use kredit_plus.Platform.Monad.Effects.{after_reads, after_stamps, ReadOnly-wrap}
use kredit_plus.Platform.Monad.Outcomes.{after_step, after_guard, after_query, wrap-ok, pure-ok}
use kredit_plus.Repository.Customer as Repo
use kredit_plus.Repository.Customer.{set_customers, set_documents, matching}
use kredit_plus.Repository.Customer.Writes.{append_document-ok}
use kredit_plus.Repository.Customer.Effects as Effects
use kredit_plus.Service.CreditLimit.Rules.{is_empty-nil}
use kredit_plus.Service.Customer.{upload_document}
use kredit_plus.Service.Transaction.Approval.{after_set}

-- A document that was uploaded: the request was valid, the customer had none of the type, and the
-- document was appended.
pub record Uploaded (p : Platform) (id : Uuid) (req : UploadDocumentRequest) (db db' : Db)
    : Type 0 where
  pub valid : validate_upload req ≡ []
  pub new :
      All
        (λ d. (d.customer_id == id && str_eq d.document_type req.document_type) ≡ false)
        db.documents
  pub document : CustomerDocument
  pub customer_id : document.customer_id ≡ id
  pub document_type : ◌≡◌ {A = String} document.document_type req.document_type
  pub document_url : document.document_url ≡ req.document_url
  pub number : ℕ
  pub now_is : db' ≡ set_documents (db.documents ++ p.documents.stored number document ∷ []) db

-- the question of `UploadDocument`: is there a document of the type
abbrev of_upload : Uuid → UploadDocumentRequest → DocumentFilterRepository
of_upload id req = record {
  customer_id = id;
  document_type = some req.document_type;
  limit = pos 1;
  offset = pos 0;
}

-- a page from the start is not past the end
from_start : (n : ℕ) (z : ℤ) → z ≡ pos 0 → (ltb 0 n && leb_ℤ (pos n) z) ≡ false
from_start n z h = subst (λ z. (ltb 0 n && leb_ℤ (pos n) z) ≡ false) (sym h) (ground arith)

module _ (p : Platform) (laws : IsPlatform p) where
  -- the page that `UploadDocument` asks for is empty only where no document matches
  no_documents :
      (filter : DocumentFilterRepository) (k : ℕ) (w : World) {total : ℕ} {w' : World}
      → filter.limit ≡ pos (suc k)
      → filter.offset ≡ pos 0
      → Repo.get_documents p filter w ≡ (ok ([], total), w')
      → All (λ d. matching p filter d ≡ false) w.db.documents
  unfolding Repo.get_documents Repo.page Repo.listed
  no_documents filter k w l o h = after_guard _ _ _ w h λ valid h1.
      after_query _ _ _ w h1 λ count q h2.
        after_query _ _ _ (step w) (rw (from_start count filter.offset o) at h2) λ rows q1 h3.
          let none_there : p.documents.find
                (record {
                  matches = matching p filter;
                  order = "created_at DESC";
                  limit = some filter.limit;
                  offset = some filter.offset;
                })
                w.db.documents (step w).tick
              ≡ ok [] =
            q1 ∙ ap (λ r. ok r) (sym (ap (λ v. v.0) (pure-ok _ _ h3).0)) in
          laws.documents.find_empty _ _ _ k (ap (λ v. some v) l) (ap (λ v. some v) o) none_there

  no_type :
      (id : Uuid) (req : UploadDocumentRequest) (w : World) (page : List CustomerDocument × ℕ)
      {w' : World}
      → page.0 ≡ []
      → Repo.get_documents p (of_upload id req) w ≡ (ok page, w')
      → All
          (λ d. (d.customer_id == id && str_eq d.document_type req.document_type) ≡ false)
          w.db.documents
  unfolding matching
  no_type id req w page {w'} e h =
      no_documents (of_upload id req) 0 w refl refl
        (h ∙ ap (λ (v : List CustomerDocument). (ok (v, page.1), w')) e)

  -- A document is uploaded only for a valid request, and only where the customer has no document
  -- of its type; then it is appended.
  pub upload_document-ok :
      (id : Uuid) (req : UploadDocumentRequest) (w : World) {r : CustomerDocumentResponse}
      {w' : World}
      → upload_document p id req w ≡ (ok r, w')
      → Uploaded p id req w.db w'.db
  unfolding upload_document
  upload_document-ok id req w {r} {w'} h = after_guard _ _ _ w h λ valid h1.
      after_reads _ _ w (ReadOnly-wrap _ _ (Effects.get_by_id-ReadOnly p id)) h1 λ o w1 e1 same1 h2.
        after_set o _ _ w1 h2 λ c e2 h3. after_guard _ _ _ w1 h3 λ active h4.
          after_reads _ _ w1 (ReadOnly-wrap _ _ (Effects.get_documents-ReadOnly p _)) h4
            λ page w2 e3 same2 h5. after_guard _ _ _ w2 h5 λ absent h6.
              after_stamps p _ w2 h6 λ doc_id created updated w3 same3 h7.
                after_step _ _ w3 h7 λ w4 e4 h8.
                  let doc : CustomerDocument = record {
                    id = doc_id;
                    customer_id = id;
                    document_type = req.document_type;
                    document_url = req.document_url;
                    created_at = created;
                    updated_at = updated;
                  } in
                  let (n, d) = append_document-ok p laws doc w3 (wrap-ok _ _ _ e4) in
                  record {
                    valid = is_empty-nil _ valid;
                    new =
                        subst
                          (λ (db : Db).
                            All
                              (λ d.
                                (d.customer_id == id && str_eq d.document_type req.document_type)
                                ≡ false)
                              db.documents)
                          same1 (no_type id req w1 page (is_empty-nil _ absent) (wrap-ok _ _ _ e3));
                    document = doc;
                    customer_id = refl;
                    document_type = refl;
                    document_url = refl;
                    number = n;
                    now_is =
                        (pure-ok _ _ h8).1
                        ∙ d
                        ∙ ap
                            (λ (db : Db).
                              set_documents (db.documents ++ p.documents.stored n doc ∷ []) db)
                            (same3 ∙ same2 ∙ same1);
                  }
