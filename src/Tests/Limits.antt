-- ===== src/Tests/Limits.antt =====
-- The theorems on credit limits, applied in the small shop.
use kredit_plus.Base.{pos, true, false, ◌≡◌, refl, ◌⊎◌}
use kredit_plus.Float.{add, of_int, lt, le, eq, zero_float}
use kredit_plus.Entity.CreditLimit.{CreditLimit, validate, is_valid_tenor}
use kredit_plus.Platform.Table.{In, erase}
use kredit_plus.Platform.World.{World}
use kredit_plus.Platform.Monad
use kredit_plus.Platform.Monad.{
  ◌>>=◌, ◌>>◌, wrap, pure, read, query, optional, new_uuid, now, fail_if, write,
}
use kredit_plus.Repository.CreditLimit as Repo
use kredit_plus.Repository.CreditLimit.{set_limits}
use kredit_plus.Repository.CreditLimit.Effects.{Charge}
use kredit_plus.Service.CreditLimit.{
  create, delete, update_used_amount, change_used_amount, or_raise, to_response,
}
use kredit_plus.Service.CreditLimit.Rules.{Opened, create_limit-ok, update_used-ok, delete_limit-ok}
use kredit_plus.Tests.Memory.{memory, memory-IsPlatform}
use kredit_plus.Tests.Fixtures.{shop, six_months}

abbrev opened_shop : World
opened_shop = (create memory six_months shop).1

create_limit-ok_example : Opened memory six_months shop.db opened_shop.db
unfolding create Repo.create Repo.get_by_customer_id_and_tenor validate is_valid_tenor
    Monad.transaction Monad.finish ◌>>=◌ ◌>>◌ wrap pure read optional new_uuid now fail_if write le
    lt of_int zero_float to_response
create_limit-ok_example =
    create_limit-ok memory memory-IsPlatform six_months shop {w' = opened_shop} refl

abbrev used_shop : World
used_shop = (update_used_amount memory 5 (of_int (pos 100)) shop).1

update_used-ok_example :
    ((eq (of_int (pos 100)) zero_float ≡ true) × (used_shop.db ≡ shop.db))
    ⊎ ((eq (of_int (pos 100)) zero_float ≡ false)
        × ((l : CreditLimit) × (l.id ≡ 5)
            × Charge memory (of_int (pos 100)) shop.db used_shop.db l))
unfolding update_used_amount change_used_amount or_raise Repo.get_by_id Repo.update_used_amount
    Monad.transaction Monad.finish ◌>>=◌ ◌>>◌ wrap pure read query optional fail_if write lt le eq
    add of_int zero_float
update_used-ok_example =
    update_used-ok memory memory-IsPlatform 5 (of_int (pos 100)) shop {w' = used_shop} refl

abbrev closed_shop : World
closed_shop = (delete memory 5 shop).1

delete_limit-ok_example :
    (l : CreditLimit) × In l shop.db.limits
    × (l.id ≡ 5)
    × (lt zero_float l.used_amount ≡ false)
    × (closed_shop.db ≡ set_limits (erase (λ r. r.id) 5 shop.db.limits) shop.db)
unfolding delete or_raise Repo.get_by_id Repo.delete Monad.transaction Monad.finish ◌>>=◌ ◌>>◌ wrap
    pure read optional fail_if write lt of_int zero_float
delete_limit-ok_example = delete_limit-ok memory memory-IsPlatform 5 shop {w' = closed_shop} refl
