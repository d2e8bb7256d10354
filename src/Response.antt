-- ===== src/Response.antt =====
-- utils/response_formatter/http.go. `Data` is an `interface{}`: the type of what is answered is a
-- parameter, and `none` stands for nil.
pub mod Pagination
use kredit_plus.Base.{
  ℕ, ℤ, pos, ◌-ℤ◌, ◌*ℤ◌, wrap64, ltb_ℤ, if◌then◌else◌, String, List, [], Option, none, some, ◌≡◌,
  refl,
}
use kredit_plus.Float.{of_int, div, ceil, to_int}

pub record Meta : Type 0 where
  pub page : ℤ
  pub per_page : ℤ
  pub total : ℤ
  pub total_page : ℤ

pub record Response (A : Type 0) : Type 0 where
  pub code : ℕ
  pub message : String
  pub payload : Option A
  pub meta : Option Meta
  pub errors : List String

-- `int(math.Ceil(float64(total) / float64(perPage)))`
unfoldable pub total_page : ℤ → ℤ → ℤ
total_page total per_page = to_int (ceil (div (of_int total) (of_int per_page)))

half_page : total_page (pos 21) (pos 10) ≡ pos 3
unfolding total_page of_int div ceil to_int
half_page = refl

module _ {A : Type 0} where
  unfoldable pub success : Option A → String → Response A
  success payload text = record {
    code = 200;
    message = text;
    payload = payload;
    meta = none;
    errors = [];
  }

  unfoldable pub created : A → String → Response A
  created payload text = record {
    code = 201;
    message = text;
    payload = some payload;
    meta = none;
    errors = [];
  }

  -- `Error`
  unfoldable pub failure : ℕ → String → List String → Response A
  failure code text errors = record {
    code = code;
    message = text;
    payload = none;
    meta = none;
    errors = errors;
  }

  unfoldable pub with_pagination : A → String → ℤ → ℤ → ℤ → Response A
  with_pagination payload text page per_page total = record {
    code = 200;
    message = text;
    payload = some payload;
    meta = some (record {
      page = page;
      per_page = per_page;
      total = total;
      total_page = total_page total per_page;
    });
    errors = [];
  }

-- `ValidatePagination`, the page and the rows per page one by one
unfoldable pub valid_page : ℤ → ℤ
valid_page page = if ltb_ℤ page (pos 1) then pos 1 else page

-- the second test sees what the first one wrote
unfoldable pub valid_per_page : ℤ → ℤ
valid_per_page per_page =
    let at_least_one = if ltb_ℤ per_page (pos 1) then pos 10 else per_page in
    if ltb_ℤ (pos 100) at_least_one then pos 100 else at_least_one

unfoldable pub validate_pagination : ℤ → ℤ → ℤ × ℤ
validate_pagination page per_page = (valid_page page, valid_per_page per_page)

-- `CalculateOffset`, in 64-bit integers
unfoldable pub calculate_offset : ℤ → ℤ → ℤ
calculate_offset page per_page = wrap64 (wrap64 (page -ℤ pos 1) *ℤ per_page)
