-- ===== src/Service/Customer/Effects.antt =====
-- A failed method of the customer service leaves the tables as they were.
use kredit_plus.Entity.Error.{Uuid}
use kredit_plus.Entity.Customer.{
  CreateCustomerRequest, UpdateCustomerRequest, UploadDocumentRequest,
}
use kredit_plus.Platform.World.{Platform}
use kredit_plus.Platform.Monad.Effects.{Atomic, atomic_rules}
use kredit_plus.Repository.Customer.Effects as Repo
use kredit_plus.Service.CreditLimit.Effects.{or_raise-ReadOnly}
use kredit_plus.Service.Customer.{create, update, delete, upload_document}

module _ (p : Platform) where
  pub create-Atomic : (req : CreateCustomerRequest) → Atomic (create p req)
  unfolding create
  create-Atomic req = search (atomic_rules, Repo.get_by_nik-ReadOnly, Repo.create-Atomic) depth 20

  pub update-Atomic : (id : Uuid) (req : UpdateCustomerRequest) → Atomic (update p id req)
  unfolding update
  update-Atomic id req =
      search (atomic_rules, or_raise-ReadOnly, Repo.get_by_id-ReadOnly, Repo.update-Atomic) depth 20

  pub delete-Atomic : (id : Uuid) → Atomic (delete p id)
  unfolding delete
  delete-Atomic id =
      search (atomic_rules, or_raise-ReadOnly, Repo.get_by_id-ReadOnly, Repo.delete-Atomic) depth 20

  pub upload_document-Atomic :
      (id : Uuid) (req : UploadDocumentRequest) → Atomic (upload_document p id req)
  unfolding upload_document
  upload_document-Atomic id req =
      search
        (
          atomic_rules, or_raise-ReadOnly, Repo.get_by_id-ReadOnly, Repo.get_documents-ReadOnly,
          Repo.create_document-Atomic,
        )
        depth 20
