-- ===== src/Repository/Customer/Effects.antt =====
-- Which methods of the customer repository leave the tables alone.
use kredit_plus.Base.{[], String, Bool, Option, none, some, ℕ}
use kredit_plus.Entity.Error.{Uuid}
use kredit_plus.Entity.Customer.{Customer, CustomerDocument, DocumentFilterRepository}
use kredit_plus.Platform.World.{Platform}
use kredit_plus.Platform.Monad.Effects.{
  ReadOnly, ReadOnly-if, ReadOnly-pure, Atomic, Atomic-transaction, read_rules,
}
use kredit_plus.Repository.Cached.{through_cache-ReadOnly}
use kredit_plus.Repository.Customer.{
  load, with_documents, get_by_id, get_by_nik, create, update, delete, create_document,
  get_documents, page, listed,
}

module _ (p : Platform) where
  with_documents-ReadOnly :
      (text : String) (o : Option Customer) → ReadOnly (with_documents p text o)
  unfolding with_documents
  with_documents-ReadOnly text none = search read_rules
  with_documents-ReadOnly text (some c) = search read_rules

  pub load-ReadOnly : (text : String) (matches : Customer → Bool) → ReadOnly (load p text matches)
  unfolding load
  load-ReadOnly text matches = search (with_documents-ReadOnly, read_rules)

  pub get_by_id-ReadOnly : (id : Uuid) → ReadOnly (get_by_id p id)
  unfolding get_by_id
  get_by_id-ReadOnly id = through_cache-ReadOnly p _ _ _ _ (load-ReadOnly _ _)

  pub get_by_nik-ReadOnly : (nik : String) → ReadOnly (get_by_nik p nik)
  unfolding get_by_nik
  get_by_nik-ReadOnly nik = through_cache-ReadOnly p _ _ _ _ (load-ReadOnly _ _)

  listed-ReadOnly : (f : DocumentFilterRepository) (total : ℕ) → ReadOnly (listed p f total)
  unfolding listed
  listed-ReadOnly f total = search read_rules

  page-ReadOnly : (f : DocumentFilterRepository) (total : ℕ) → ReadOnly (page p f total)
  unfolding page
  page-ReadOnly f total = ReadOnly-if _ _ _ (ReadOnly-pure ([], total)) (listed-ReadOnly f total)

  pub get_documents-ReadOnly : (f : DocumentFilterRepository) → ReadOnly (get_documents p f)
  unfolding get_documents
  get_documents-ReadOnly f = search (page-ReadOnly, read_rules)

  pub create-Atomic : (c : Customer) → Atomic (create p c)
  unfolding create
  create-Atomic c = Atomic-transaction _ p

  pub update-Atomic : (c : Customer) → Atomic (update p c)
  unfolding update
  update-Atomic c = Atomic-transaction _ p

  pub delete-Atomic : (id : Uuid) → Atomic (delete p id)
  unfolding delete
  delete-Atomic id = Atomic-transaction _ p

  pub create_document-Atomic : (d : CustomerDocument) → Atomic (create_document p d)
  unfolding create_document
  create_document-Atomic d = Atomic-transaction _ p
