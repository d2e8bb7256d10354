-- ===== src/Invariant/Others.antt =====
-- The calls on assets, customers and documents keep what is said of the limits and the transactions.
use kredit_plus.Base.{ℕ, List}
use kredit_plus.Entity.Error.{Uuid}
use kredit_plus.Entity.Asset.{Asset, CreateAssetRequest, UpdateAssetRequest}
use kredit_plus.Entity.Customer.{
  Customer, CustomerDocument, CreateCustomerRequest, UpdateCustomerRequest, UploadDocumentRequest,
}
use kredit_plus.Platform.Table.{Result}
use kredit_plus.Platform.World.{Db, Platform}
use kredit_plus.Platform.Monad.{write}
use kredit_plus.Platform.Monad.Effects.{Keeps, Keeps-write, Keeps-transaction, keeps_rules}
use kredit_plus.Repository.Asset as AssetRepo
use kredit_plus.Repository.Asset.{set_assets}
use kredit_plus.Repository.Asset.Effects as AssetReads
use kredit_plus.Repository.Customer as CustomerRepo
use kredit_plus.Repository.Customer.{set_customers, set_documents}
use kredit_plus.Repository.Customer.Effects as CustomerReads
use kredit_plus.Service.Asset as AssetService
use kredit_plus.Service.Customer as CustomerService
use kredit_plus.Service.CreditLimit.Effects.{or_raise-ReadOnly}

-- The rows of the assets, the customers and the documents make no difference.
pub record Ignores (P : Db → Type 0) : Type 0 where
  pub assets : (rows : List Asset) (db : Db) → P db → P (set_assets rows db)
  pub customers : (rows : List Customer) (db : Db) → P db → P (set_customers rows db)
  pub documents : (rows : List CustomerDocument) (db : Db) → P db → P (set_documents rows db)

module _ (P : Db → Type 0) (i : Ignores P) where
  pub assets-Keeps : (f : Db → ℕ → Result (List Asset)) → Keeps P (write f set_assets)
  assets-Keeps f = Keeps-write P f set_assets (λ db n rows e h. i.assets rows db h)

  pub customers-Keeps : (f : Db → ℕ → Result (List Customer)) → Keeps P (write f set_customers)
  customers-Keeps f = Keeps-write P f set_customers (λ db n rows e h. i.customers rows db h)

  pub documents-Keeps :
      (f : Db → ℕ → Result (List CustomerDocument)) → Keeps P (write f set_documents)
  documents-Keeps f = Keeps-write P f set_documents (λ db n rows e h. i.documents rows db h)

pub ruleset other_tables = (
  keeps_rules, Keeps-transaction, assets-Keeps, customers-Keeps, documents-Keeps, or_raise-ReadOnly,
  AssetReads.get_by_id-ReadOnly, CustomerReads.get_by_id-ReadOnly,
  CustomerReads.get_by_nik-ReadOnly, CustomerReads.get_documents-ReadOnly,
  AssetReads.found_for_deletion-ReadOnly,
)

module _ (P : Db → Type 0) (i : Ignores P) (p : Platform) where
  pub create_asset-Keeps : (req : CreateAssetRequest) → Keeps (P) (AssetService.create p req)
  unfolding AssetService.create AssetRepo.create
  create_asset-Keeps req = search other_tables depth 20

  pub update_asset-Keeps :
      (id : Uuid) (req : UpdateAssetRequest) → Keeps (P) (AssetService.update p id req)
  unfolding AssetService.update AssetRepo.update
  update_asset-Keeps id req = search other_tables depth 20

  pub delete_asset-Keeps : (id : Uuid) → Keeps (P) (AssetService.delete p id)
  unfolding AssetService.delete AssetRepo.delete
  delete_asset-Keeps id = search other_tables depth 20

  pub create_customer-Keeps :
      (req : CreateCustomerRequest) → Keeps (P) (CustomerService.create p req)
  unfolding CustomerService.create CustomerRepo.create
  create_customer-Keeps req = search other_tables depth 20

  pub update_customer-Keeps :
      (id : Uuid) (req : UpdateCustomerRequest) → Keeps (P) (CustomerService.update p id req)
  unfolding CustomerService.update CustomerRepo.update
  update_customer-Keeps id req = search other_tables depth 20

  pub delete_customer-Keeps : (id : Uuid) → Keeps (P) (CustomerService.delete p id)
  unfolding CustomerService.delete CustomerRepo.delete
  delete_customer-Keeps id = search other_tables depth 20

  pub upload_document-Keeps :
      (id : Uuid) (req : UploadDocumentRequest)
      → Keeps (P) (CustomerService.upload_document p id req)
  unfolding CustomerService.upload_document CustomerRepo.create_document
  upload_document-Keeps id req = search other_tables depth 20 fits 10000
