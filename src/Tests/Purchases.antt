-- ===== src/Tests/Purchases.antt =====
-- The theorems on purchases, applied in the small shop.
use kredit_plus.Base.{ℕ, ◌+◌, ◌*◌, true, pos, ◌+ℤ◌, [], ◌∷◌, List, ◌≡◌, refl}
use kredit_plus.Float.{of_int, lt, le, add, sub, mul, div, zero_float}
use kredit_plus.Time.{add_month, days_in}
use kredit_plus.Entity.Error.{Error, wrapped}
use kredit_plus.Entity.CreditLimit.{is_valid_tenor}
use kredit_plus.Entity.Transaction.{Transaction, TransactionDetail, validate}
use kredit_plus.Platform.Table.{ok, err}
use kredit_plus.Platform.World.{World}
use kredit_plus.Platform.Monad
use kredit_plus.Platform.Monad.{
  ◌>>=◌, ◌>>◌, wrap, pure, raise, read, query, attempt, ignore, optional, new_uuid, now, fail_if,
  write, cache_get, cache_set,
}
use kredit_plus.Repository.CreditLimit as LimitRepo
use kredit_plus.Repository.Cached.{through_cache}
use kredit_plus.Repository.Customer as CustomerRepo
use kredit_plus.Repository.Asset as AssetRepo
use kredit_plus.Repository.Transaction as Repo
use kredit_plus.Repository.Transaction.{generate_installments, installments_from, installment}
use kredit_plus.Repository.Transaction.Create.{Stored, store-ok}
use kredit_plus.Repository.Transaction.Schedule.{
  Schedule, generate_installments-Schedule, months_after,
}
use kredit_plus.Service.CreditLimit.{or_raise}
use kredit_plus.Service.Gathering.{gather, run_goroutines, run_goroutine}
use kredit_plus.Service.Transaction.{
  Approved, approve, settle, create, checked, new_transaction, total_amount, interest_amount,
  installment_amount, to_response,
}
use kredit_plus.Service.Transaction.Approval.{IsApproved, approve-ok}
use kredit_plus.Service.Transaction.Status.{with_status, update_status-ok}
use kredit_plus.Entity.Transaction.{is_valid_status}
use kredit_plus.Repository.Transaction.{set_transactions}
use kredit_plus.Service.Transaction.{update_status}
use kredit_plus.Service.Transaction.Purchase.{Settled, purchase-ok, settle_keeps_Stored}
use kredit_plus.Tests.Memory.{memory, memory-IsPlatform}
use kredit_plus.Tests.Fixtures.{shop, order, motorcycle, three_months, morning}

abbrev approved : Approved
approved = record { asset = motorcycle; limit = three_months }

abbrev contract : Transaction
contract = new_transaction order approved 1000 morning morning

abbrev sold_shop : World
sold_shop = (create memory order shop).1

purchase-ok_example :
    (validate order ≡ [])
    × ((a : Approved) × ((approve memory order shop).0 ≡ ok a)
        × Settled memory order a shop.db sold_shop.db)
unfolding create approve gather run_goroutines run_goroutine settle checked or_raise validate
    is_valid_tenor new_transaction total_amount interest_amount installment_amount to_response
    through_cache CustomerRepo.get_by_id CustomerRepo.load CustomerRepo.with_documents
    AssetRepo.get_by_id AssetRepo.load LimitRepo.get_by_customer_id_and_tenor
    LimitRepo.update_used_amount Repo.get_by_contract_number Repo.get_by_id Repo.with_associations
    Repo.create generate_installments installments_from installment Monad.transaction Monad.finish
    ◌>>=◌ ◌>>◌ wrap pure raise read query attempt ignore optional new_uuid now fail_if write
    cache_get cache_set lt le add sub mul div of_int zero_float add_month days_in ◌+ℤ◌
purchase-ok_example = purchase-ok memory memory-IsPlatform order shop {w' = sold_shop} refl

abbrev stored_shop : World
stored_shop = (Repo.create memory contract shop).1

store-ok_example : Stored memory contract shop.db stored_shop.db
unfolding new_transaction interest_amount installment_amount total_amount Repo.create
    generate_installments installments_from installment Monad.transaction Monad.finish ◌>>=◌ ◌>>◌
    wrap pure read query new_uuid now fail_if write lt le add sub mul div of_int zero_float
    add_month days_in ◌+ℤ◌
store-ok_example = store-ok memory memory-IsPlatform contract shop {w' = stored_shop} refl

generate_installments-Schedule_example :
    (ds : List TransactionDetail) × (w' : World) × (generate_installments memory contract shop
      ≡ (ok ds, w'))
    × Schedule contract (memory.now 0) (pos 0) 3 ds
unfolding new_transaction
generate_installments-Schedule_example = generate_installments-Schedule memory contract 3 shop refl

-- a limit that has room for the price and not for the price and the total
abbrev tight : Approved
tight = record {
  asset = motorcycle;
  limit = record three_months { limit_amount = of_int (pos 1500) };
}

abbrev tight_shop : World
tight_shop = record shop { db = record shop.db { limits = tight.limit ∷ [] } }

abbrev tight_contract : Transaction
tight_contract = new_transaction order tight 1000 (memory.now 1) (memory.now 2)

abbrev half_way : World
half_way = (Repo.create memory tight_contract (record tight_shop { tick = 3 })).1

abbrev refused_shop : World
refused_shop = (LimitRepo.update_used_amount memory 5 (total_amount motorcycle order) half_way).1

abbrev refusal : Error
refusal =
    LimitRepo.insufficient memory (record tight.limit { used_amount = of_int (pos 1000) })
      (total_amount motorcycle order)

settle_keeps_Stored_example :
    (settle memory order tight tight_shop
      ≡ (err (wrapped "failed to update credit limit" refusal), refused_shop))
    × Stored memory tight_contract tight_shop.db refused_shop.db
unfolding new_transaction interest_amount installment_amount total_amount Repo.create
    generate_installments installments_from installment LimitRepo.update_used_amount
    LimitRepo.insufficient Monad.transaction Monad.finish ◌>>=◌ ◌>>◌ wrap pure raise read query
    new_uuid now fail_if write lt le add sub mul div of_int zero_float add_month days_in ◌+ℤ◌
settle_keeps_Stored_example =
    settle_keeps_Stored memory memory-IsPlatform order tight tight_shop {w1 = half_way}
      {w2 = refused_shop} {e = refusal} refl refl refl

abbrev due_in : ℕ → TransactionDetail
due_in k =
    installment contract (pos k) (months_after k (memory.now 0)) (memory.new_uuid (1 + 3 * k))
      (memory.now (2 + 3 * k)) (memory.now (3 + 3 * k))

approve-ok_example : IsApproved memory order shop.db approved
unfolding approve gather run_goroutines run_goroutine checked or_raise through_cache
    CustomerRepo.get_by_id CustomerRepo.load CustomerRepo.with_documents AssetRepo.get_by_id
    AssetRepo.load LimitRepo.get_by_customer_id_and_tenor Repo.get_by_contract_number
    Repo.with_associations ◌>>=◌ ◌>>◌ wrap pure raise read query attempt ignore optional fail_if
    cache_get cache_set
approve-ok_example =
    approve-ok memory memory-IsPlatform order shop {w' = (approve memory order shop).1} refl

abbrev active_shop : World
active_shop = (update_status memory 1000 "active" stored_shop).1

update_status-ok_example :
    (is_valid_status "active" ≡ true)
    × ((n : ℕ) × (active_shop.db
          ≡ set_transactions (with_status memory 1000 n "active" stored_shop.db) stored_shop.db))
unfolding update_status is_valid_status Repo.get_by_id Repo.update_status Repo.with_associations
    or_raise new_transaction interest_amount installment_amount total_amount Repo.create
    generate_installments installments_from installment Monad.transaction Monad.finish ◌>>=◌ ◌>>◌
    wrap pure raise read query optional new_uuid now fail_if write lt le add sub mul div of_int
    zero_float add_month days_in ◌+ℤ◌
update_status-ok_example =
    update_status-ok memory memory-IsPlatform 1000 "active" stored_shop {w' = active_shop} refl
