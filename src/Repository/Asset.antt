-- ===== src/Repository/Asset.antt =====
-- internal/repository/asset.go
pub mod Effects
use kredit_plus.Base.{
  ℕ, pos, ltb, ltb_ℤ, leb_ℤ, ◌==◌, Bool, ◌&&◌, ◌||◌, not, if◌then◌else◌, List, [], ◌∷◌, append,
  str_eq, Option, some,
}
use kredit_plus.Float.{lt, le, zero_float}
use kredit_plus.Entity.Error.{Uuid, message, wrapped}
use kredit_plus.Entity.Asset.{Asset, AssetFilterRepository}
use kredit_plus.Platform.Table.{Fetch, found, missing, failed}
use kredit_plus.Platform.World.{Db, Platform}
use kredit_plus.Platform.Monad.{
  M, pure, raise, wrap, ◌>>=◌, ◌>>◌, fail_if, read, query, write, optional, transaction, cache_del,
  ignore,
}
use kredit_plus.Repository.Cached.{through_cache}
use kredit_plus.Cacher.{asset_key}

abbrev pub set_assets : List Asset → Db → Db
set_assets rows db = record db { assets = rows }

-- the `Where` clauses of `GetAllWithFilter`, each there only where its filter is set
unfoldable pub passes : AssetFilterRepository → Asset → Bool
passes f a =
    (str_eq f.category "" || str_eq a.category f.category)
    && (not (lt zero_float f.min_price) || le f.min_price a.price)
    && (not (lt zero_float f.max_price) || le a.price f.max_price)

module _ (p : Platform) where
  unfoldable pub create : Asset → M (Unit {0})
  create asset =
      transaction p (
        wrap "failed to create asset"
          (write (λ db n. p.assets.create asset db.assets n) set_assets))

  -- the read of the table in `GetByID`
  unfoldable pub load : Uuid → M (Option Asset)
  load id = do
    row ← read (λ db n. p.assets.first (λ a. a.id == id) db.assets n)
    optional "failed to get asset" row

  unfoldable pub get_by_id : Uuid → M (Option Asset)
  get_by_id id =
      through_cache p (asset_key p.uuid_text id) p.unmarshal_asset p.marshal_asset (load id)

  unfoldable pub listed : AssetFilterRepository → ℕ → M (List Asset × ℕ)
  listed filter total = do
    rows ← wrap "failed to list assets" (
        query (λ db n.
          p.assets.find
            (record {
              matches = passes filter;
              order = "created_at DESC";
              limit = some filter.limit;
              offset = some filter.offset;
            })
            db.assets n))
    pure (rows, total)

  -- a page past the end is empty, and is not asked for
  unfoldable pub page : AssetFilterRepository → ℕ → M (List Asset × ℕ)
  page filter total =
      if ltb 0 total && leb_ℤ (pos total) filter.offset
      then pure ([], total)
      else listed filter total

  unfoldable pub get_all_with_filter : AssetFilterRepository → M (List Asset × ℕ)
  get_all_with_filter filter = do
    fail_if (ltb_ℤ filter.limit (pos 0) || ltb_ℤ filter.offset (pos 0))
        (message "invalid pagination parameters: limit and offset must be non-negative")
    total ←
        wrap "failed to count assets" (query (λ db n. p.assets.count (passes filter) db.assets n))
    page filter total

  unfoldable pub update : Asset → M (Unit {0})
  update asset = transaction p do
    wrap "failed to update asset" (write (λ db n. p.assets.save asset db.assets n) set_assets)
    ignore (cache_del p (asset_key p.uuid_text asset.id ∷ []))

  unfoldable pub found_for_deletion : Fetch Asset → M Asset
  found_for_deletion (found a) = pure a
  found_for_deletion missing = raise (message "asset not found")
  found_for_deletion (failed e) = raise (wrapped "failed to get asset for deletion" e)

  unfoldable pub delete : Uuid → M (Unit {0})
  delete id = transaction p do
    row ← read (λ db n. p.assets.first (λ a. a.id == id) db.assets n)
    asset ← found_for_deletion row
    uses ←
        wrap "failed to check asset transactions"
          (query (λ db n. p.transactions.count (λ t. t.asset_id == id) db.transactions n))
    fail_if (ltb 0 uses) (
        message (
          append "cannot delete asset: asset is used in "
            (append (p.int_text (pos uses)) " transactions")))
    wrap "failed to delete asset" (write (λ db n. p.assets.delete asset db.assets n) set_assets)
    ignore (cache_del p (asset_key p.uuid_text id ∷ []))
