-- ===== src/Handler/Asset.antt =====
-- internal/handler/asset.go
use kredit_plus.Base.{pos, none, some}
use kredit_plus.Entity.Asset.{AssetFilterRequest}
use kredit_plus.Platform.World.{Platform}
use kredit_plus.Service.Asset as Service
use kredit_plus.Response.{with_pagination, calculate_offset}
use kredit_plus.Handler.{
  Request, Http, Handler, asset, assets, send, report, give, give_created, parse_or, answer,
  asked_page,
}

abbrev pub asked_assets : Http → Request → AssetFilterRequest
asked_assets h r = record {
  category = r.query "category" "";
  min_price = h.parse_float (r.query "min_price" "");
  max_price = h.parse_float (r.query "max_price" "");
  limit = (asked_page r).1;
  offset = calculate_offset (asked_page r).0 (asked_page r).1;
}

module _ (p : Platform) (h : Http) where
  unfoldable pub create : Request → Handler
  create r = parse_or h (h.create_asset r.body) "Invalid request body" λ req.
      answer h (Service.create p req) (report h 500 "Failed to create asset")
        (λ a. give_created h (asset a) "Asset created successfully")

  -- `List`
  unfoldable pub list_assets : Request → Handler
  list_assets r =
      answer h (Service.get_all p (asked_assets h r)) (report h 500 "Failed to fetch assets")
        (λ found. send h 200 (
          with_pagination (assets found.0) "Assets retrieved successfully" (asked_page r).0
            (asked_page r).1 (pos found.1)))

  unfoldable pub get_by_id : Request → Handler
  get_by_id r = parse_or h (h.parse_uuid (r.params "id")) "Invalid asset ID" λ id.
      answer h (Service.get_by_id p id) (report h 404 "Asset not found")
        (λ a. give h (some (asset a)) "Asset retrieved successfully")

  unfoldable pub update : Request → Handler
  update r = parse_or h (h.parse_uuid (r.params "id")) "Invalid asset ID" λ id.
      parse_or h (h.update_asset r.body) "Invalid request body" λ req.
        answer h (Service.update p id req) (report h 500 "Failed to update asset")
          (λ a. give h (some (asset a)) "Asset updated successfully")

  unfoldable pub delete : Request → Handler
  delete r = parse_or h (h.parse_uuid (r.params "id")) "Invalid asset ID" λ id.
      answer h (Service.delete p id) (report h 500 "Failed to delete asset")
        (λ _. give h none "Asset deleted successfully")
