-- ===== src/Entity/Asset.antt =====
-- internal/entity/asset.go. The association `Transactions` is never loaded and is left out.
use kredit_plus.Base.{ℤ, String, append, str_eq, List, [], ◌∷◌, ◌++◌, if◌then◌else◌}
use kredit_plus.Float.{Float64}
use kredit_plus.Time.{Time}
use kredit_plus.Entity.Error.{Uuid}

pub record Asset : Type 0 where
  pub id : Uuid
  pub name : String
  pub category : String
  pub description : String
  pub price : Float64
  pub created_at : Time
  pub updated_at : Time

pub record AssetFilterRequest : Type 0 where
  pub category : String
  pub min_price : Float64
  pub max_price : Float64
  pub limit : ℤ
  pub offset : ℤ

pub record AssetFilterRepository : Type 0 where
  pub category : String
  pub min_price : Float64
  pub max_price : Float64
  pub limit : ℤ
  pub offset : ℤ

pub record CreateAssetRequest : Type 0 where
  pub name : String
  pub category : String
  pub description : String
  pub price : Float64

pub record UpdateAssetRequest : Type 0 where
  pub name : String
  pub description : String
  pub price : Float64

pub record AssetResponse : Type 0 where
  pub id : Uuid
  pub name : String
  pub category : String
  pub description : String
  pub price : Float64
  pub created_at : String
  pub updated_at : String

-- One entry of the validator's answer, a third-party package: a field and the tag that failed.
pub record FieldError : Type 0 where
  pub field : String
  pub tag : String

-- The switch of `CreateAssetRequest.Validate`. The escaped texts are dropped there, so the calls of
-- `html.EscapeString` have no effect.
create_error : FieldError → List String
create_error e =
    if str_eq e.field "Name"
    then append "name " e.tag ∷ []
    else if str_eq e.field "Category"
    then "category must be one of: white_goods, motor, mobil" ∷ []
    else if str_eq e.field "Description"
    then append "description " e.tag ∷ []
    else if str_eq e.field "Price"
    then "price must be greater than 0" ∷ []
    else []

-- The switch of `UpdateAssetRequest.Validate`.
update_error : FieldError → List String
update_error e =
    if str_eq e.field "Name"
    then append "name " e.tag ∷ []
    else if str_eq e.field "Description"
    then append "description " e.tag ∷ []
    else if str_eq e.field "Price"
    then "price must be greater than 0" ∷ []
    else []

create_errors : List FieldError → List String
unfolding create_error
create_errors [] = []
create_errors (e ∷ es) = create_error e ++ create_errors es

-- `CreateAssetRequest.Validate`; `validator` stands for `validate.Struct`, with no entries for nil.
unfoldable pub validate_create :
    (CreateAssetRequest → List FieldError) → CreateAssetRequest → List String
unfolding create_errors
validate_create validator r = create_errors (validator r)

update_errors : List FieldError → List String
unfolding update_error
update_errors [] = []
update_errors (e ∷ es) = update_error e ++ update_errors es

-- `UpdateAssetRequest.Validate`; `validator` stands for `validate.Struct`, with no entries for nil.
unfoldable pub validate_update :
    (UpdateAssetRequest → List FieldError) → UpdateAssetRequest → List String
unfolding update_errors
validate_update validator r = update_errors (validator r)

-- `ToAssetFilterRepo`
unfoldable pub to_filter : AssetFilterRequest → AssetFilterRepository
to_filter r = record {
  category = r.category;
  min_price = r.min_price;
  max_price = r.max_price;
  limit = r.limit;
  offset = r.offset;
}
