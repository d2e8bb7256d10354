-- ===== src/Response/Pagination.antt =====
-- What `ValidatePagination` and `CalculateOffset` give.
use kredit_plus.Base.{
  ℕ, zero, suc, ◌*◌, ◌+◌, ◌^◌, ◌≤◌, ℤ, pos, negsuc, ◌-ℤ◌, ◌*ℤ◌, wrap64, ltb, Bool-cases, inl, inr,
  ◌≡◌, ap, sym, ◌∙◌, arith, subst,
}
use kredit_plus.Entity.Validation.{page_start}
use kredit_plus.Response.{valid_page, valid_per_page, validate_pagination, calculate_offset}

-- A page that was asked for is from 1 on, and has 1 to 100 rows.
pub record IsPage (page per_page : ℤ) : Type 0 where
  pub before : ℕ
  pub rows : ℕ
  pub page_is : page ≡ pos (suc before)
  pub rows_are : per_page ≡ pos rows
  pub some_rows : 1 ≤ rows
  pub few_rows : rows ≤ 100

page_cases : (z : ℤ) → (n : ℕ) × (valid_page z ≡ pos (suc n))
unfolding valid_page
page_cases (pos zero) = (0, ground arith)
page_cases (pos (suc n)) = (n, ground arith)
page_cases (negsuc n) = (0, ground arith)

rows_cases : (z : ℤ) → (m : ℕ) × (valid_per_page z ≡ pos m) × (1 ≤ m) × (m ≤ 100)
unfolding valid_per_page
rows_cases (pos zero) = (10, ground arith, ground arith, ground arith)
rows_cases (pos (suc n)) = elim (Bool-cases (ltb 100 (suc n))) [
  | inl y ↦ (100, ground arith, omega arith, omega arith)
  | inr z ↦ (suc n, ground arith, omega arith, ground arith)
]
rows_cases (negsuc n) = (10, ground arith, ground arith, ground arith)

-- Whatever is asked for, `ValidatePagination` gives a page from 1 on with 1 to 100 rows.
pub validate_pagination-IsPage :
    (page per_page : ℤ)
    → IsPage (validate_pagination page per_page).0 (validate_pagination page per_page).1
unfolding validate_pagination
validate_pagination-IsPage page per_page =
    let (n, e) = page_cases page in
    let (m, f, l, h) = rows_cases per_page in
    record { before = n; rows = m; page_is = e; rows_are = f; some_rows = l; few_rows = h }

kept :
    (n m : ℕ) → 1 ≤ m → m ≤ 100 → validate_pagination (pos (suc n)) (pos m) ≡ (pos (suc n), pos m)
unfolding validate_pagination valid_page valid_per_page
kept n m l h = ground arith

-- `ValidatePagination` leaves such a page as it is.
pub validate_pagination_of_IsPage :
    (page per_page : ℤ)
    → IsPage page per_page
    → validate_pagination page per_page ≡ (page, per_page)
validate_pagination_of_IsPage page per_page v =
    subst (λ z. validate_pagination z per_page ≡ (z, per_page)) (sym v.page_is)
      (subst (λ z. validate_pagination (pos (suc v.before)) z ≡ (pos (suc v.before), z))
        (sym v.rows_are) (kept v.before v.rows v.some_rows v.few_rows))

-- Where the rows before a page fit a 64-bit integer, their number is its offset.
pub calculate_offset_lem :
    (page per_page : ℤ) (v : IsPage page per_page)
    → v.before * v.rows + 1 ≤ 2 ^ 63
    → calculate_offset page per_page ≡ pos (v.before * v.rows)
unfolding calculate_offset
calculate_offset_lem page per_page v fits =
    ap (λ z. wrap64 (wrap64 (z -ℤ pos 1) *ℤ per_page)) v.page_is
    ∙ ap (λ z. wrap64 (wrap64 (pos (suc v.before) -ℤ pos 1) *ℤ z)) v.rows_are
    ∙ page_start v.before v.rows v.some_rows fits
