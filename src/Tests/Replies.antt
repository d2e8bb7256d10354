-- ===== src/Tests/Replies.antt =====
-- The theorems on what a client is answered, applied in the small shop.
use kredit_plus.Base.{◌≡◌}
use kredit_plus.Entity.Error.{check}
use kredit_plus.Entity.Customer as Customers
use kredit_plus.Entity.Transaction as Transactions
use kredit_plus.Handler.Customer as CustomerHandler
use kredit_plus.Handler.Transaction as TransactionHandler
use kredit_plus.Handler.Pages.{invalid_asked_status, asked_filters}
use kredit_plus.Tests.Web.{request}

asked_filters_example :
    (Customers.validate_filter (CustomerHandler.asked_documents (request "" ""))
      ≡ check (CustomerHandler.invalid_document_type "") "invalid document type")
    × (Transactions.validate_filter (TransactionHandler.asked_transactions (request "" ""))
        ≡ check (invalid_asked_status "") "invalid status")
asked_filters_example = asked_filters (request "" "")
