-- ===== src/Service/Reads.antt =====
-- The service methods that read: they leave the tables alone.
use kredit_plus.Base.{ℤ, String}
use kredit_plus.Entity.Error.{Uuid}
use kredit_plus.Entity.Asset.{AssetFilterRequest}
use kredit_plus.Entity.Customer.{DocumentFilterRequest}
use kredit_plus.Entity.Transaction.{TransactionFilterRequest}
use kredit_plus.Platform.World.{Platform}
use kredit_plus.Platform.Monad.Effects.{ReadOnly, ReadOnly-if, read_rules}
use kredit_plus.Repository.Asset as AssetRepo
use kredit_plus.Repository.Asset.Effects as AssetReads
use kredit_plus.Repository.Customer.Effects as CustomerReads
use kredit_plus.Repository.CreditLimit as LimitRepo
use kredit_plus.Repository.CreditLimit.Effects as LimitReads
use kredit_plus.Repository.Transaction as TransactionRepo
use kredit_plus.Repository.Transaction.Effects as TransactionReads
use kredit_plus.Service.Asset as Asset
use kredit_plus.Service.Customer as Customer
use kredit_plus.Service.CreditLimit as CreditLimit
use kredit_plus.Service.CreditLimit.Effects.{or_raise-ReadOnly}
use kredit_plus.Service.Transaction as Transaction

ruleset service_reads = (
  read_rules, or_raise-ReadOnly, AssetReads.get_by_id-ReadOnly, CustomerReads.get_by_id-ReadOnly,
  CustomerReads.get_by_nik-ReadOnly, CustomerReads.get_documents-ReadOnly,
  LimitReads.get_by_id-ReadOnly, LimitReads.get_by_customer_id_and_tenor-ReadOnly,
  TransactionReads.get_by_id-ReadOnly, TransactionReads.get_by_contract_number-ReadOnly,
)

module _ (p : Platform) where
  pub get_asset-ReadOnly : (id : Uuid) → ReadOnly (Asset.get_by_id p id)
  unfolding Asset.get_by_id
  get_asset-ReadOnly id = search service_reads depth 20

  pub list_assets-ReadOnly : (f : AssetFilterRequest) → ReadOnly (Asset.get_all p f)
  unfolding Asset.get_all AssetRepo.get_all_with_filter AssetRepo.page AssetRepo.listed
  list_assets-ReadOnly f = search (ReadOnly-if, service_reads) depth 20

  pub get_customer-ReadOnly : (id : Uuid) → ReadOnly (Customer.get_by_id p id)
  unfolding Customer.get_by_id
  get_customer-ReadOnly id = search service_reads depth 20

  pub get_customer_by_nik-ReadOnly : (nik : String) → ReadOnly (Customer.get_by_nik p nik)
  unfolding Customer.get_by_nik
  get_customer_by_nik-ReadOnly nik = search service_reads depth 20

  pub get_documents-ReadOnly :
      (id : Uuid) (f : DocumentFilterRequest) → ReadOnly (Customer.get_documents p id f)
  unfolding Customer.get_documents
  get_documents-ReadOnly id f = search service_reads depth 20

  pub get_limit-ReadOnly : (id : Uuid) → ReadOnly (CreditLimit.get_by_id p id)
  unfolding CreditLimit.get_by_id
  get_limit-ReadOnly id = search service_reads depth 20

  pub get_limits-ReadOnly : (id : Uuid) → ReadOnly (CreditLimit.get_all_by_customer_id p id)
  unfolding CreditLimit.get_all_by_customer_id LimitRepo.get_all_by_customer_id
  get_limits-ReadOnly id = search service_reads depth 20

  pub get_limit_of_tenor-ReadOnly :
      (id : Uuid) (tenor : ℤ) → ReadOnly (CreditLimit.get_by_customer_id_and_tenor p id tenor)
  unfolding CreditLimit.get_by_customer_id_and_tenor
  get_limit_of_tenor-ReadOnly id tenor = search service_reads depth 20

  pub get_transaction-ReadOnly : (id : Uuid) → ReadOnly (Transaction.get_by_id p id)
  unfolding Transaction.get_by_id
  get_transaction-ReadOnly id = search service_reads depth 20

  pub get_contract-ReadOnly : (n : String) → ReadOnly (Transaction.get_by_contract_number p n)
  unfolding Transaction.get_by_contract_number
  get_contract-ReadOnly n = search service_reads depth 20

  pub get_transactions-ReadOnly :
      (id : Uuid) (f : TransactionFilterRequest)
      → ReadOnly (Transaction.get_all_by_customer_id p id f)
  unfolding Transaction.get_all_by_customer_id TransactionRepo.get_all_by_customer_id
  get_transactions-ReadOnly id f = search service_reads depth 20
