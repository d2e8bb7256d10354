-- ===== src/Handler/Transaction.antt =====
-- internal/handler/transaction.go
use kredit_plus.Base.{pos, if◌then◌else◌, str_eq, [], ◌∷◌, none, some}
use kredit_plus.Entity.Error.{
  Error, transaction_not_found, duplicate_contract, invalid_status, insufficient_credit_limit,
}
use kredit_plus.Entity.Transaction.{TransactionFilterRequest}
use kredit_plus.Platform.World.{Platform}
use kredit_plus.Service.Transaction as Service
use kredit_plus.Response.{with_pagination}
use kredit_plus.Handler.{
  Request, Reply, Http, Handler, transaction, transactions, send, refuse, report, give,
  give_created, parse_or, answer, asked_page,
}

abbrev pub asked_transactions : Request → TransactionFilterRequest
asked_transactions r = record {
  status = r.query "status" "";
  page = (asked_page r).0;
  per_page = (asked_page r).1;
}

module _ (p : Platform) (h : Http) where
  unfoldable pub create_errors : Error → Reply
  create_errors duplicate_contract =
      report h 409 "Contract number already exists" duplicate_contract
  create_errors insufficient_credit_limit =
      report h 400 "Insufficient credit limit" insufficient_credit_limit
  create_errors e = report h 500 "Failed to create transaction" e

  unfoldable pub create : Request → Handler
  create r = parse_or h (h.create_transaction r.body) "Invalid request body" λ req.
      answer h (Service.create p req) create_errors
        (λ t. give_created h (transaction t) "Transaction created successfully")

  unfoldable pub get_errors : Error → Reply
  get_errors transaction_not_found = report h 404 "Transaction not found" transaction_not_found
  get_errors e = report h 500 "Failed to get transaction" e

  unfoldable pub get_by_id : Request → Handler
  get_by_id r = parse_or h (h.parse_uuid (r.params "id")) "Invalid transaction ID" λ id.
      answer h (Service.get_by_id p id) get_errors
        (λ t. give h (some (transaction t)) "Transaction retrieved successfully")

  unfoldable pub get_by_contract_number : Request → Handler
  get_by_contract_number r =
      if str_eq (r.params "contract_number") ""
      then (λ w.
          (refuse h 400 "Contract number is required" ("contract_number is required" ∷ []), w))
      else answer h (Service.get_by_contract_number p (r.params "contract_number")) get_errors
          (λ t. give h (some (transaction t)) "Transaction retrieved successfully")

  unfoldable pub get_all_by_customer_id : Request → Handler
  get_all_by_customer_id r =
      parse_or h (h.parse_uuid (r.params "customer_id")) "Invalid customer ID" λ id.
        answer h (Service.get_all_by_customer_id p id (asked_transactions r))
          (report h 500 "Failed to get transactions")
          (λ found. send h 200 (
            with_pagination (transactions found.0) "Transactions retrieved successfully"
              (asked_page r).0 (asked_page r).1 (pos found.1)))

  unfoldable pub status_errors : Error → Reply
  status_errors transaction_not_found = report h 404 "Transaction not found" transaction_not_found
  status_errors invalid_status = report h 400 "Invalid status" invalid_status
  status_errors e = report h 500 "Failed to update transaction status" e

  unfoldable pub update_status : Request → Handler
  update_status r = parse_or h (h.parse_uuid (r.params "id")) "Invalid transaction ID" λ id.
      parse_or h (h.update_status r.body) "Invalid request body" λ req.
        answer h (Service.update_status p id req.status) status_errors
          (λ _. give h none "Transaction status updated successfully")
