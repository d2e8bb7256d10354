-- ===== src/Handler/Pages.antt =====
-- The page that a request asks for, and what the filters find of it.
use kredit_plus.Base.{
  ℕ, suc, ℤ, pos, ltb_ℤ, Bool, not, ◌&&◌, str_eq, String, List, ◌++◌, ◌≡◌, ap, ◌∙◌, arith,
  Bool-cases, inl, inr, ◌≤◌,
}
use kredit_plus.Entity.Error.{check}
use kredit_plus.Entity.Customer as Customers
use kredit_plus.Entity.Transaction as Transactions
use kredit_plus.Response.Pagination.{IsPage, validate_pagination-IsPage}
use kredit_plus.Handler.{Request, asked_page}
use kredit_plus.Handler.Customer.{asked_documents, asked_type, invalid_document_type}
use kredit_plus.Handler.Transaction.{asked_transactions}

-- the checks of a filter that are on its page, in front of the last one
abbrev checks : ℤ → ℤ → List String → List String
checks page per_page last =
    check (ltb_ℤ page (pos 1)) "page must be greater than 0"
    ++ (check (ltb_ℤ per_page (pos 1)) "per_page must be greater than 0"
        ++ (check (ltb_ℤ (pos 100) per_page) "per_page must not exceed 100" ++ last))

few_checks :
    (n m : ℕ) (last : List String) → 1 ≤ m → m ≤ 100 → checks (pos (suc n)) (pos m) last ≡ last
few_checks n m last l h = ground (arith, l, h)

-- A page that was asked for passes them.
page_checks :
    (page per_page : ℤ) (last : List String)
    → IsPage page per_page
    → checks page per_page last ≡ last
page_checks page per_page last v =
    ap (λ z. checks z per_page last) v.page_is
    ∙ ap (λ z. checks (pos (suc v.before)) z last) v.rows_are
    ∙ few_checks v.before v.rows last v.some_rows v.few_rows

type_check : (text : String) → Customers.invalid_type (asked_type text) ≡ invalid_document_type text
unfolding Customers.invalid_type
type_check text = elim (Bool-cases (str_eq text "")) [ inl y ↦ ground arith | inr z ↦ ground arith ]

-- a status that is asked for and is none
abbrev pub invalid_asked_status : String → Bool
invalid_asked_status text = not (str_eq text "") && not (Transactions.is_valid_status text)

-- Whatever page is asked for, the filters of the documents and of the transactions find no fault
-- with it: their errors are those of the document type and of the status.
pub asked_filters :
    (r : Request)
    → (Customers.validate_filter (asked_documents r)
        ≡ check (invalid_document_type (r.query "document_type" "")) "invalid document type")
      × (Transactions.validate_filter (asked_transactions r)
          ≡ check (invalid_asked_status (r.query "status" "")) "invalid status")
unfolding Customers.validate_filter Transactions.validate_filter asked_page
asked_filters r = (
  page_checks _ _ _ (validate_pagination-IsPage _ _)
      ∙ ap (λ c. check c "invalid document type") (type_check (r.query "document_type" "")),
  page_checks _ _ _ (validate_pagination-IsPage _ _),
)
