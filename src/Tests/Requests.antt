-- ===== src/Tests/Requests.antt =====
-- The theorems on any request, applied in the small shop.
use kredit_plus.Base.{some, List, [], ◌∷◌, ◌≡◌, refl, arith}
use kredit_plus.Float.{of_int, add, eq, lt, zero_float}
use kredit_plus.Platform.Monad.{◌>>=◌, ◌>>◌, wrap, pure, raise, read, optional, fail_if}
use kredit_plus.Repository.CreditLimit as LimitRepo
use kredit_plus.Service.CreditLimit as LimitService
use kredit_plus.Invariant.Calls.{Call}
use kredit_plus.Handler.{Request, send, refuse, report, parse_or, answer}
use kredit_plus.Handler.Customer as CustomerHandler
use kredit_plus.Handler.CreditLimit as LimitHandler
use kredit_plus.Handler.Routes.{
  Endpoint, delete_limit, create_limit, update_used_amount, get_limit, create_transaction, is_read,
  serve, serve_all,
}
use kredit_plus.Handler.Statuses.{HasStatus}
use kredit_plus.Handler.Conflicts.{no_conflict}
use kredit_plus.Handler.Calling.{run_option, serve-asked_call}
use kredit_plus.Handler.Requests.{serve_unchanged, refusal_unchanged, IsSound, serve_all-IsSound}
use kredit_plus.Tests.Memory.{memory, memory-IsPlatform}
use kredit_plus.Tests.Fixtures.{shop}
use kredit_plus.Tests.Web.{web, request}

serve-asked_call_example :
    (serve memory web delete_limit (request "5" "") shop).1.db
    ≡ (run_option memory (some (Call.delete_limit 5)) shop).db
serve-asked_call_example = serve-asked_call memory web delete_limit (request "5" "") shop

serve_unchanged_example : (serve memory web get_limit (request "5" "") shop).1.db ≡ shop.db
unfolding is_read
serve_unchanged_example = serve_unchanged memory web get_limit (request "5" "") shop refl

refusal_unchanged_example :
    (serve memory web update_used_amount (request "5" "9000") shop).1.db ≡ shop.db
unfolding serve LimitHandler.update_used_amount parse_or answer LimitHandler.use_errors report
    refuse send LimitService.update_used_amount LimitService.change_used_amount
    LimitService.or_raise LimitRepo.get_by_id ◌>>=◌ ◌>>◌ wrap pure read optional fail_if raise lt eq
    add of_int zero_float
refusal_unchanged_example =
    refusal_unchanged memory web update_used_amount (request "5" "9000") shop (λ x. refl) refl
      (omega arith)

shop-IsSound : IsSound shop.db
unfolding lt of_int zero_float
shop-IsSound = record { covered = (refl, tt); one_each = (tt, tt); contracts = tt }

abbrev requests : List (Endpoint × Request)
requests =
    (create_limit, request "5" "six")
    ∷ (create_transaction, request "" "order")
    ∷ (update_used_amount, request "5" "9000")
    ∷ []

serve_all-IsSound_example : IsSound (serve_all memory web requests shop).db
serve_all-IsSound_example =
    serve_all-IsSound memory memory-IsPlatform web requests shop shop-IsSound

no_conflict_example :
    (¬ (HasStatus 409 (CustomerHandler.create memory web (request "1" "") shop).0))
    × (¬ (HasStatus 409 (CustomerHandler.upload_document memory web (request "1" "") shop).0))
no_conflict_example = no_conflict memory web (request "1" "") shop
