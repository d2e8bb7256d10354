-- ===== src/Tests/Openings.antt =====
-- The theorems on the opening of a limit, applied in the small shop.
use kredit_plus.Base.{ℤ, inl, pos, [], ◌∷◌, ◌++◌, ◌≡◌, refl, ◌⊎◌}
use kredit_plus.Float.{of_int, lt, le, zero_float}
use kredit_plus.Entity.Error.{Uuid, Error, wrapped}
use kredit_plus.Entity.CreditLimit.{CreditLimit, CreditLimitResponse, validate, is_valid_tenor}
use kredit_plus.Platform.Table.{Result, ok, err, failed}
use kredit_plus.Platform.World.{Db, World}
use kredit_plus.Platform.Monad
use kredit_plus.Platform.Monad.{
  ◌>>=◌, ◌>>◌, wrap, pure, read, optional, new_uuid, now, fail_if, write,
}
use kredit_plus.Repository.CreditLimit as Repo
use kredit_plus.Response.{created}
use kredit_plus.Repository.CreditLimit.{of_tenor}
use kredit_plus.Service.CreditLimit.{create, get_by_customer_id_and_tenor, to_response}
use kredit_plus.Service.CreditLimit.Reading.{IsAdded, create-get_by_customer_id_and_tenor}
use kredit_plus.Repository.CreditLimit.Success.{fits_column}
use kredit_plus.Service.CreditLimit.Success.{Answers, IsOpened}
use kredit_plus.Handler.{credit_limit, answered}
use kredit_plus.Handler.CreditLimit as Handler
use kredit_plus.Handler.Opening.{create_answered}
use kredit_plus.Tests.Memory.{memory, memory-IsPlatform, never_failed, inserted}
use kredit_plus.Tests.Fixtures.{shop, six_months, budi}
use kredit_plus.Tests.Web.{web, request}

abbrev opened_shop : World
opened_shop = (create memory six_months shop).1

abbrev read_next : Uuid → ℤ → Result CreditLimitResponse
read_next customer_id tenor = (get_by_customer_id_and_tenor memory customer_id tenor opened_shop).0

create-get_by_customer_id_and_tenor_example :
    ((l : CreditLimit) × (opened_shop.db.limits ≡ shop.db.limits ++ l ∷ [])
      × (l.id ≡ 1001)
      × (((given : CreditLimitResponse) × (read_next 1 (pos 6) ≡ ok given)
            × IsAdded memory six_months l given)
          ⊎ ((e : Error) × (memory.limits.first
                  (of_tenor 1 (pos 6))
                  opened_shop.db.limits
                  opened_shop.tick
                ≡ failed e)
              × (read_next 1 (pos 6)
                  ≡ err (
                      wrapped "failed to get credit limit"
                        (wrapped "failed to get credit limit" e))))))
    × ((customer_id : Uuid) (tenor : ℤ) (given : CreditLimitResponse)
        → read_next customer_id tenor ≡ ok given
        → (given.customer_id ≡ customer_id) × (given.tenor_month ≡ tenor))
unfolding create Repo.create Repo.get_by_customer_id_and_tenor validate is_valid_tenor
    Monad.transaction Monad.finish ◌>>=◌ ◌>>◌ wrap pure read optional new_uuid now fail_if write le
    lt of_int zero_float to_response
create-get_by_customer_id_and_tenor_example =
    create-get_by_customer_id_and_tenor memory memory-IsPlatform six_months shop {w' = opened_shop}
      refl

memory-Answers : (db : Db) → Answers memory db
memory-Answers db = record {
  first_answers = λ matches n e. never_failed matches db.limits e;
  insert_answers = λ l c n fresh stands owner limit_fits used_fits.
      (db.limits ++ l ∷ [], inserted (λ r. r.id) l db.limits fresh);
  begin_answers = λ n. refl;
  commit_answers = λ n. refl;
}

create_answered_example :
    (l : CreditLimitResponse) × IsOpened six_months 1001 l
    × ((Handler.create memory web (request "" "six") shop).0
        ≡ answered 201 (created (credit_limit l) "Credit limit created successfully"))
unfolding validate is_valid_tenor fits_column le lt of_int zero_float
create_answered_example =
    create_answered memory memory-IsPlatform web (request "" "six") shop six_months budi
      (memory-Answers shop.db) (λ x. refl) refl refl (inl refl) refl refl (refl, tt) (refl, tt)
