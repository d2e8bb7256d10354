-- ===== src/Tests/Sales.antt =====
-- A purchase that succeeds, in the small shop.
use kredit_plus.Base.{ℕ, arith, inl, [], ◌∷◌, ◌≡◌, refl}
use kredit_plus.Float.{of_int, lt, le, add, sub, mul, div, zero_float}
use kredit_plus.Entity.CreditLimit.{is_valid_tenor}
use kredit_plus.Entity.Transaction.{TransactionResponse, validate}
use kredit_plus.Platform.Table.{put}
use kredit_plus.Platform.World.{World}
use kredit_plus.Platform.Monad.{
  ◌>>=◌, ◌>>◌, wrap, pure, raise, read, query, attempt, ignore, optional, fail_if, cache_get,
  cache_set,
}
use kredit_plus.Repository.CreditLimit as LimitRepo
use kredit_plus.Repository.Cached.{through_cache}
use kredit_plus.Repository.Customer as CustomerRepo
use kredit_plus.Repository.Asset as AssetRepo
use kredit_plus.Repository.Transaction as Repo
use kredit_plus.Repository.Transaction.Accepted.{SaleAnswers, DrawsNew, is_short}
use kredit_plus.Repository.CreditLimit.Success.{fits_column}
use kredit_plus.Response.{created}
use kredit_plus.Service.CreditLimit as LimitService
use kredit_plus.Service.Gathering.{gather, run_goroutines, run_goroutine}
use kredit_plus.Service.Transaction.{
  Approved, approve, checked, total_amount, interest_amount, installment_amount,
}
use kredit_plus.Service.Transaction.Success.{HasRoom, FitsOrder, Stand, IsSold}
use kredit_plus.Handler.{transaction, answered}
use kredit_plus.Handler.Transaction as Handler
use kredit_plus.Handler.Buying.{purchase_answered}
use kredit_plus.Tests.Memory.{memory, memory-IsPlatform, never_failed}
use kredit_plus.Tests.Fixtures.{shop, order, motorcycle, three_months, budi}
use kredit_plus.Tests.Web.{web, request}

memory-SaleAnswers : SaleAnswers memory shop.db
memory-SaleAnswers = record {
  charges = record {
    first_limit = λ matches rows n e. never_failed matches rows e;
    save_limit = λ old l rows n stands same limit_fits used_fits. (put (λ r. r.id) l rows, refl);
    begins = λ n. refl;
    commits = λ n. refl;
  };
  first_transaction = λ matches rows n e. never_failed matches rows e;
  insert_transaction = λ t c a n fresh new customer asset fits. (t ∷ [], refl);
  insert_details = λ t rows n d ds m e fits distinct. (d ∷ ds, refl);
  preload = λ c db t n. (
    t,
    refl,
    refl,
    record {
      customer_id = refl;
      asset_id = refl;
      contract_number = refl;
      tenor_month = refl;
      status = refl;
    },
  );
}

draws_new : (from : ℕ) → DrawsNew memory shop.db from
draws_new from = record {
  apart = λ m n h. ground (arith, h);
  transactions = λ n h. tt;
  details = λ n h. tt;
}

abbrev approved : Approved
approved = record { asset = motorcycle; limit = three_months }

order_room : HasRoom memory order approved
unfolding total_amount interest_amount lt le add sub mul div of_int zero_float fits_column
order_room = record {
  affordable = refl;
  price = record { room = refl; limit_fits = refl; used_fits = refl };
  total = record { room = refl; limit_fits = refl; used_fits = refl };
}

order_fits : FitsOrder order approved
unfolding total_amount interest_amount installment_amount lt le add sub mul div of_int zero_float
    fits_column is_short
order_fits = record {
  price_fits = refl;
  fee_fits = refl;
  interest_fits = refl;
  installment_fits = refl;
  contract_fits = refl;
}

order_stands : Stand order shop.db
order_stands = record {
  customer = budi;
  customer_stands = (inl refl, refl);
  asset = motorcycle;
  asset_stands = (inl refl, refl);
}

abbrev approved_shop : World
approved_shop = (approve memory order shop).1

purchase_answered_example :
    (t : TransactionResponse) × IsSold order (memory.new_uuid approved_shop.tick) t
    × ((Handler.create memory web (request "" "order") shop).0
        ≡ answered 201 (created (transaction t) "Transaction created successfully"))
unfolding validate is_valid_tenor approve gather run_goroutines run_goroutine checked
    LimitService.or_raise through_cache CustomerRepo.get_by_id CustomerRepo.load
    CustomerRepo.with_documents AssetRepo.get_by_id AssetRepo.load
    LimitRepo.get_by_customer_id_and_tenor Repo.get_by_contract_number Repo.with_associations ◌>>=◌
    ◌>>◌ wrap pure raise read query attempt ignore optional fail_if cache_get cache_set lt le of_int
    zero_float
purchase_answered_example =
    purchase_answered memory memory-IsPlatform web (request "" "order") shop order approved
      approved_shop memory-SaleAnswers (draws_new approved_shop.tick) (λ x. refl) refl refl refl
      order_stands order_fits order_room (tt, tt)
