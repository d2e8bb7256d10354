-- ===== src/Service/Asset.antt =====
-- internal/service/asset.go
pub mod Effects
pub mod Rules
use kredit_plus.Base.{ℕ, not, List, [], ◌∷◌, map, String, append, is_empty}
use kredit_plus.Entity.Error.{Uuid, Error, message, validation_failed}
use kredit_plus.Entity.Asset.{
  Asset, AssetResponse, AssetFilterRequest, CreateAssetRequest, UpdateAssetRequest, validate_create,
  validate_update, to_filter,
}
use kredit_plus.Platform.World.{Platform}
use kredit_plus.Platform.Monad.{M, pure, ◌>>=◌, ◌>>◌, fail_if, now, new_uuid}
use kredit_plus.Repository.Asset as Repo
use kredit_plus.Service.CreditLimit.{rfc3339, or_raise}

-- the texts with a space between, as `%v` prints a slice
spaced : List String → String
spaced [] = ""
spaced (s ∷ []) = s
spaced (s ∷ (t ∷ ts)) = append s (append " " (spaced (t ∷ ts)))

-- `fmt.Errorf("validation failed: %v", errors)`
slice_failed : List String → Error
unfolding spaced
slice_failed errors = message (append "validation failed: [" (append (spaced errors) "]"))

module _ (p : Platform) where
  unfoldable pub to_response : Asset → AssetResponse
  to_response a = record {
    id = a.id;
    name = a.name;
    category = a.category;
    description = a.description;
    price = a.price;
    created_at = p.format rfc3339 a.created_at;
    updated_at = p.format rfc3339 a.updated_at;
  }

  unfoldable pub create : CreateAssetRequest → M AssetResponse
  create req = do
    let errors = validate_create p.check_create_asset req
    fail_if (not (is_empty errors)) (validation_failed errors)
    id ← new_uuid p
    created_at ← now p
    updated_at ← now p
    let asset : Asset = record {
      id = id;
      name = req.name;
      category = req.category;
      description = req.description;
      price = req.price;
      created_at = created_at;
      updated_at = updated_at;
    }
    Repo.create p asset
    pure (to_response asset)

  unfoldable pub get_by_id : Uuid → M AssetResponse
  get_by_id id = do
    row ← Repo.get_by_id p id
    asset ← or_raise row (message "asset not found")
    pure (to_response asset)

  unfoldable pub get_all : AssetFilterRequest → M (List AssetResponse × ℕ)
  get_all filter = do
    (assets, total) ← Repo.get_all_with_filter p (to_filter filter)
    pure (map to_response assets, total)

  unfoldable pub update : Uuid → UpdateAssetRequest → M AssetResponse
  unfolding slice_failed
  update id req = do
    let errors = validate_update p.check_update_asset req
    fail_if (not (is_empty errors)) (slice_failed errors)
    row ← Repo.get_by_id p id
    old ← or_raise row (message "asset not found")
    updated_at ← now p
    let asset : Asset = record old {
      name = req.name;
      description = req.description;
      price = req.price;
      updated_at = updated_at;
    }
    Repo.update p asset
    pure (to_response asset)

  unfoldable pub delete : Uuid → M (Unit {0})
  delete id = Repo.delete p id
