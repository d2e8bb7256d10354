-- ===== src/Tests/People.antt =====
-- The theorems on customers, assets and requests, applied in the small shop.
use kredit_plus.Base.{◌*◌, ◌≤◌, pos, false, [], ◌≡◌, ◌≢◌, ◌↔◌, refl, arith}
use kredit_plus.Float.{of_int, lt, le, zero_float}
use kredit_plus.Time.{is_zero}
use kredit_plus.Entity.Error.{nil_uuid}
use kredit_plus.Entity.Customer.{
  CreateCustomerRequest, UploadDocumentRequest, validate_create, validate_upload, is_valid_type,
}
use kredit_plus.Entity.Transaction as Transactions
use kredit_plus.Entity.Transaction.{TransactionFilterRequest}
use kredit_plus.Entity.Validation.{IsTenor, purchase_request_iff, transaction_page}
use kredit_plus.Platform.World.{World}
use kredit_plus.Platform.Monad
use kredit_plus.Platform.Monad.{
  ◌>>=◌, ◌>>◌, wrap, pure, raise, read, query, attempt, ignore, optional, new_uuid, now, fail_if,
  write, cache_get, cache_set, cache_del,
}
use kredit_plus.Repository.Cached.{through_cache}
use kredit_plus.Repository.Customer as Repo
use kredit_plus.Repository.Asset as AssetRepo
use kredit_plus.Repository.Asset.{found_for_deletion}
use kredit_plus.Service.CreditLimit.{or_raise}
use kredit_plus.Service.Customer.{
  create, delete, upload_document, to_response, to_document_response,
}
use kredit_plus.Service.Customer.Rules.{Registered, create_customer-ok}
use kredit_plus.Service.Customer.Uploads.{Uploaded, upload_document-ok}
use kredit_plus.Service.Asset as AssetService
use kredit_plus.Service.Asset.Rules.{Removed, delete_asset-ok}
use kredit_plus.Tests.Memory.{memory, memory-IsPlatform}
use kredit_plus.Tests.Fixtures.{shop, order, morning}

abbrev sari : CreateCustomerRequest
sari = record {
  nik = "3201010101010002";
  full_name = "Sari";
  legal_name = "Sari Dewi";
  birth_place = "Depok";
  birth_date = morning;
  salary = of_int (pos 7000);
}

abbrev joined_shop : World
joined_shop = (create memory sari shop).1

create_customer-ok_example : Registered memory sari shop.db joined_shop.db
unfolding create validate_create is_zero through_cache Repo.get_by_nik Repo.load Repo.with_documents
    Repo.create to_response Monad.transaction Monad.finish ◌>>=◌ ◌>>◌ wrap pure raise read query
    attempt ignore optional new_uuid now fail_if write cache_get cache_set le lt of_int zero_float
create_customer-ok_example =
    create_customer-ok memory memory-IsPlatform sari shop {w' = joined_shop} refl

abbrev left_shop : World
left_shop = (delete memory 1 shop).1

abbrev card : UploadDocumentRequest
card = record { document_type = "ktp"; document_url = "https://files.example/ktp.png" }

abbrev documented_shop : World
documented_shop = (upload_document memory 1 card shop).1

upload_document-ok_example : Uploaded memory 1 card shop.db documented_shop.db
unfolding upload_document validate_upload is_valid_type or_raise through_cache Repo.get_by_id
    Repo.load Repo.with_documents Repo.get_documents Repo.page Repo.listed Repo.matching
    Repo.create_document to_document_response Monad.transaction Monad.finish ◌>>=◌ ◌>>◌ wrap pure
    raise read query attempt ignore optional new_uuid now fail_if write cache_get cache_set
    cache_del
upload_document-ok_example =
    upload_document-ok memory memory-IsPlatform 1 card shop {w' = documented_shop} refl

abbrev emptied_shop : World
emptied_shop = (AssetService.delete memory 7 shop).1

delete_asset-ok_example : Removed 7 shop.db emptied_shop.db
unfolding AssetService.delete AssetRepo.delete found_for_deletion Monad.transaction Monad.finish
    ◌>>=◌ ◌>>◌ wrap pure raise read query ignore fail_if write cache_del
delete_asset-ok_example = delete_asset-ok memory memory-IsPlatform 7 shop {w' = emptied_shop} refl

purchase_request_iff_example : (Transactions.validate order ≡ []) ↔ (
    (order.customer_id ≢ nil_uuid)
    × (order.asset_id ≢ nil_uuid)
    × IsTenor order.tenor_month
    × (lt order.admin_fee zero_float ≡ false)
    × ((lt order.interest_rate zero_float ≡ false)
        × (lt (of_int (pos 100)) order.interest_rate ≡ false))
    × (order.contract_number ≢ ""))
purchase_request_iff_example = purchase_request_iff order

abbrev third_page : TransactionFilterRequest
third_page = record { status = "active"; page = pos 3; per_page = pos 20 }

transaction_page_example :
    ((Transactions.to_filter third_page).offset ≡ pos (2 * 20))
    × ((Transactions.to_filter third_page).limit ≡ pos 20)
    × (1 ≤ 20)
    × (20 ≤ 100)
unfolding Transactions.validate_filter Transactions.is_valid_status
transaction_page_example = transaction_page third_page 2 20 refl refl (omega arith) refl
