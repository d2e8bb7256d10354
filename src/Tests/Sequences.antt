-- ===== src/Tests/Sequences.antt =====
-- A sequence of service calls in the small shop.
use kredit_plus.Base.{pos, some, ◌≡◌, refl}
use kredit_plus.Float.{of_int, add, eq, lt, zero_float}
use kredit_plus.Entity.Error.{insufficient_credit_limit}
use kredit_plus.Platform.Monad.{◌>>=◌, ◌>>◌, wrap, pure, raise, read, optional, fail_if}
use kredit_plus.Repository.CreditLimit as LimitRepo
use kredit_plus.Service.CreditLimit as LimitService
use kredit_plus.Invariant.Failures.{failure, failure_unchanged}
use kredit_plus.Invariant.Calls.{Call, run_call}
use kredit_plus.Tests.Memory.{memory}
use kredit_plus.Tests.Fixtures.{shop}

used_up :
    failure memory (Call.update_used_amount 5 (of_int (pos 9000))) shop
    ≡ some insufficient_credit_limit
unfolding failure LimitService.update_used_amount LimitService.change_used_amount
    LimitService.or_raise LimitRepo.get_by_id ◌>>=◌ ◌>>◌ wrap pure read optional fail_if raise lt eq
    add of_int zero_float
used_up = refl

failure_unchanged_example :
    (run_call memory (Call.update_used_amount 5 (of_int (pos 9000))) shop).db ≡ shop.db
failure_unchanged_example =
    failure_unchanged memory (Call.update_used_amount 5 (of_int (pos 9000))) shop
      insufficient_credit_limit refl used_up
