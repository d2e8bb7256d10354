-- ===== src/Repository/Customer.antt =====
-- internal/repository/customer.go
pub mod Effects
pub mod Writes
use kredit_plus.Base.{
  ℕ, pos, ltb, ltb_ℤ, leb_ℤ, ◌==◌, Bool, true, false, ◌&&◌, ◌||◌, if◌then◌else◌, List, [], ◌∷◌,
  String, str_eq, Option, some, none,
}
use kredit_plus.Entity.Error.{Uuid, message}
use kredit_plus.Entity.Customer.{Customer, CustomerDocument, DocumentType, DocumentFilterRepository}
use kredit_plus.Platform.World.{Db, Platform}
use kredit_plus.Platform.Monad.{
  M, pure, wrap, ◌>>=◌, ◌>>◌, fail_if, read, query, write, require, optional, transaction,
  cache_del, ignore,
}
use kredit_plus.Repository.Cached.{through_cache}
use kredit_plus.Cacher.{
  customer_id_key, customer_nik_key, customer_documents_key, customer_document_key,
  customer_credit_limits_key, customer_transactions_key,
}

abbrev pub set_customers : List Customer → Db → Db
set_customers rows db = record db { customers = rows }

abbrev pub set_documents : List CustomerDocument → Db → Db
set_documents rows db = record db { documents = rows }

-- the `Where` clauses of `GetDocuments`: the type counts where the pointer is set
abbrev pub of_type : Option DocumentType → DocumentType → Bool
of_type none dt = true
of_type (some wanted) dt = str_eq dt wanted

module _ (p : Platform) where
  unfoldable pub create : Customer → M (Unit {0})
  create customer = transaction p (
      wrap "failed to create customer"
        (write (λ db n. p.customers.create customer db.customers n) set_customers))

  -- `Preload("Documents")`
  unfoldable pub with_documents : String → Option Customer → M (Option Customer)
  with_documents text none = pure none
  with_documents text (some c) = do
    loaded ← wrap text (query (λ db n. p.preload_documents db c n))
    pure (some loaded)

  -- the read of the tables in `GetByID` and in `GetByNIK`
  unfoldable pub load : String → (Customer → Bool) → M (Option Customer)
  load text matches = do
    row ← read (λ db n. p.customers.first matches db.customers n)
    found_row ← optional text row
    with_documents text found_row

  unfoldable pub get_by_id : Uuid → M (Option Customer)
  get_by_id id =
      through_cache p (customer_id_key p.uuid_text id) p.unmarshal_customer p.marshal_customer
        (load "failed to get customer" (λ c. c.id == id))

  unfoldable pub get_by_nik : String → M (Option Customer)
  get_by_nik nik =
      through_cache p (customer_nik_key nik) p.unmarshal_customer p.marshal_customer
        (load "failed to get customer by nik" (λ c. str_eq c.nik nik))

  -- the keys that `Update` deletes one by one
  unfoldable pub update : Customer → M (Unit {0})
  update customer = transaction p do
    wrap "failed to update customer"
        (write (λ db n. p.customers.save customer db.customers n) set_customers)
    ignore (cache_del p (customer_id_key p.uuid_text customer.id ∷ []))
    ignore (cache_del p (customer_nik_key customer.nik ∷ []))
    ignore (cache_del p (customer_documents_key p.uuid_text customer.id ∷ []))

  unfoldable pub delete : Uuid → M (Unit {0})
  delete id = transaction p do
    customer ←
        wrap "failed to get customer for deletion"
          (query (λ db n. require (p.customers.first (λ c. c.id == id) db.customers n)))
    wrap "failed to delete customer" (
        write
          (λ db n.
            p.customers.update (λ c. c.id == id) (λ c. record c { is_active = false }) db.customers
              n)
          set_customers)
    ignore (
        cache_del p (
          customer_id_key p.uuid_text id
          ∷ customer_nik_key customer.nik
          ∷ customer_documents_key p.uuid_text id
          ∷ customer_credit_limits_key p.uuid_text id
          ∷ customer_transactions_key p.uuid_text id
          ∷ []))

  unfoldable pub create_document : CustomerDocument → M (Unit {0})
  create_document doc = transaction p do
    wrap "failed to create customer document"
        (write (λ db n. p.documents.create doc db.documents n) set_documents)
    ignore (
        cache_del p (
          customer_id_key p.uuid_text doc.customer_id
          ∷ customer_documents_key p.uuid_text doc.customer_id
          ∷ customer_document_key p.uuid_text doc.id
          ∷ []))

  unfoldable pub matching : DocumentFilterRepository → CustomerDocument → Bool
  matching filter d =
      d.customer_id == filter.customer_id && of_type filter.document_type d.document_type

  unfoldable pub listed : DocumentFilterRepository → ℕ → M (List CustomerDocument × ℕ)
  listed filter total = do
    rows ← wrap "failed to get customer documents" (
        query (λ db n.
          p.documents.find
            (record {
              matches = matching filter;
              order = "created_at DESC";
              limit = some filter.limit;
              offset = some filter.offset;
            })
            db.documents n))
    pure (rows, total)

  -- a page past the end is empty, and is not asked for
  unfoldable pub page : DocumentFilterRepository → ℕ → M (List CustomerDocument × ℕ)
  page filter total =
      if ltb 0 total && leb_ℤ (pos total) filter.offset
      then pure ([], total)
      else listed filter total

  unfoldable pub get_documents : DocumentFilterRepository → M (List CustomerDocument × ℕ)
  get_documents filter = do
    fail_if (ltb_ℤ filter.limit (pos 0) || ltb_ℤ filter.offset (pos 0))
        (message "invalid pagination parameters: limit and offset must be non-negative")
    total ←
        wrap "failed to count customer documents"
          (query (λ db n. p.documents.count (matching filter) db.documents n))
    page filter total
