-- ===== src/Tests/Lookups.antt =====
-- The theorems on the requests that read, applied in the small shop.
use kredit_plus.Base.{wrap64, ◌*ℤ◌, ◌-ℤ◌, ◌==◌, pos, false, [], ◌∷◌, All, some, ◌≡◌, refl, ◌⊎◌}
use kredit_plus.Strconv.{atoi, scan}
use kredit_plus.Float.{lt, le, zero_float}
use kredit_plus.Entity.Error.{Error, wrapped, credit_limit_not_found, error_text}
use kredit_plus.Entity.CreditLimit.{CreditLimit, CreditLimitResponse}
use kredit_plus.Entity.Asset as Assets
use kredit_plus.Entity.Asset.{Asset}
use kredit_plus.Platform.Table.{In, failed, count_if}
use kredit_plus.Platform.World.{World}
use kredit_plus.Platform.Monad.{◌>>=◌, ◌>>◌, wrap, pure, query, fail_if}
use kredit_plus.Repository.Asset as AssetRepo
use kredit_plus.Service.Asset as AssetService
use kredit_plus.Response.{
  success, failure, with_pagination, validate_pagination, valid_page, valid_per_page,
  calculate_offset,
}
use kredit_plus.Handler.{answered, credit_limit, assets, send, asked_page}
use kredit_plus.Handler.Asset as AssetHandler
use kredit_plus.Handler.CreditLimit as LimitHandler
use kredit_plus.Handler.Lookups.{Shows, get_limit_answered}
use kredit_plus.Handler.Totals.{assets_listed}
use kredit_plus.Tests.Memory.{memory, memory-IsPlatform}
use kredit_plus.Tests.Fixtures.{shop, motorcycle}
use kredit_plus.Tests.Web.{web, request}

get_limit_answered_example :
    let reply = (LimitHandler.get_by_id memory web (request "5" "") shop).0 in
    ((l : CreditLimit) × In l shop.db.limits
      × (l.id ≡ 5)
      × ((given : CreditLimitResponse) × Shows memory web l given
          × (reply
              ≡ answered 200
                  (success (some (credit_limit given)) "Credit limit retrieved successfully"))))
    ⊎ ((All (λ l. (l.id == 5) ≡ false) shop.db.limits
          × (reply
              ≡ answered 404
                  (failure 404 "Credit limit not found" (error_text credit_limit_not_found ∷ []))))
        ⊎ ((e : Error) × (memory.limits.first (λ l. l.id == 5) shop.db.limits 0 ≡ failed e)
            × (reply
                ≡ answered 500 (
                    failure 500 "Failed to get credit limit" (
                      error_text (
                        wrapped "failed to get credit limit"
                          (wrapped "failed to get credit limit" e))
                      ∷ [])))))
get_limit_answered_example =
    get_limit_answered memory web memory-IsPlatform (request "5" "") shop 5 (λ x. refl) refl

abbrev counted_shop : World
counted_shop = record shop { tick = 2 }

assets_listed_example : AssetHandler.list_assets memory web (request "" "") shop ≡ (
  send web 200 (
      with_pagination
        (assets (AssetService.to_response memory motorcycle ∷ []))
        "Assets retrieved successfully"
        (asked_page (request "" "")).0
        (asked_page (request "" "")).1
        (pos (
          count_if
            (AssetRepo.passes (Assets.to_filter (AssetHandler.asked_assets web (request "" ""))))
            shop.db.assets))),
  counted_shop,
)
unfolding AssetService.get_all AssetRepo.get_all_with_filter AssetRepo.page AssetRepo.listed
    AssetRepo.passes Assets.to_filter asked_page validate_pagination valid_page valid_per_page
    calculate_offset atoi scan ◌>>=◌ ◌>>◌ wrap pure query fail_if lt le zero_float wrap64 ◌*ℤ◌ ◌-ℤ◌
assets_listed_example =
    assets_listed memory memory-IsPlatform web (request "" "") shop
      (AssetService.to_response memory motorcycle ∷ []) 1 counted_shop refl
