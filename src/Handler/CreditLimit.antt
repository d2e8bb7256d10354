-- ===== src/Handler/CreditLimit.antt =====
-- internal/handler/credit_limit.go
use kredit_plus.Base.{ℤ, String, Option, none, some}
use kredit_plus.Strconv.{NumError, atoi, atoi_text}
use kredit_plus.Entity.Error.{
  Error, credit_limit_not_found, insufficient_credit_limit, duplicate_credit_limit,
  credit_limit_in_use,
}
use kredit_plus.Platform.World.{Platform}
use kredit_plus.Service.CreditLimit as Service
use kredit_plus.Handler.{
  Request, Reply, Http, Handler, Parsed, parsed, unparsed, credit_limit, credit_limits, report,
  give, give_created, parse_or, answer,
}

-- a number of the path, with the text of its error
unfoldable pub number_or_text : (String → String) → String → Option NumError → ℤ → Parsed ℤ
number_or_text quote s none n = parsed n
number_or_text quote s (some e) n = unparsed (atoi_text quote s e)

unfoldable pub path_number : (String → String) → String → Parsed ℤ
unfolding number_or_text
path_number quote s = number_or_text quote s (atoi s).error (atoi s).value

module _ (p : Platform) (h : Http) where
  unfoldable pub create_errors : Error → Reply
  create_errors duplicate_credit_limit =
      report h 409 "Credit limit already exists" duplicate_credit_limit
  create_errors e = report h 500 "Failed to create credit limit" e

  unfoldable pub create : Request → Handler
  create r = parse_or h (h.create_limit r.body) "Invalid request body" λ req.
      answer h (Service.create p req) create_errors
        (λ l. give_created h (credit_limit l) "Credit limit created successfully")

  unfoldable pub get_errors : Error → Reply
  get_errors credit_limit_not_found = report h 404 "Credit limit not found" credit_limit_not_found
  get_errors e = report h 500 "Failed to get credit limit" e

  unfoldable pub get_by_id : Request → Handler
  get_by_id r = parse_or h (h.parse_uuid (r.params "id")) "Invalid credit limit ID" λ id.
      answer h (Service.get_by_id p id) get_errors
        (λ l. give h (some (credit_limit l)) "Credit limit retrieved successfully")

  unfoldable pub get_all_by_customer_id : Request → Handler
  get_all_by_customer_id r =
      parse_or h (h.parse_uuid (r.params "customer_id")) "Invalid customer ID" λ id.
        answer h (Service.get_all_by_customer_id p id) (report h 500 "Failed to get credit limits")
          (λ ls. give h (some (credit_limits ls)) "Credit limits retrieved successfully")

  unfoldable pub get_by_customer_id_and_tenor : Request → Handler
  get_by_customer_id_and_tenor r =
      parse_or h (h.parse_uuid (r.params "customer_id")) "Invalid customer ID" λ id.
        parse_or h (path_number h.quote (r.params "tenor_month")) "Invalid tenor month" λ tenor.
          answer h (Service.get_by_customer_id_and_tenor p id tenor) get_errors
            (λ l. give h (some (credit_limit l)) "Credit limit retrieved successfully")

  unfoldable pub use_errors : Error → Reply
  use_errors credit_limit_not_found = report h 404 "Credit limit not found" credit_limit_not_found
  use_errors insufficient_credit_limit =
      report h 400 "Insufficient credit limit" insufficient_credit_limit
  use_errors e = report h 500 "Failed to update credit limit used amount" e

  unfoldable pub update_used_amount : Request → Handler
  update_used_amount r = parse_or h (h.parse_uuid (r.params "id")) "Invalid credit limit ID" λ id.
      parse_or h (h.update_used_amount r.body) "Invalid request body" λ req.
        answer h (Service.update_used_amount p id req.amount) use_errors
          (λ _. give h none "Credit limit used amount updated successfully")

  unfoldable pub delete_errors : Error → Reply
  delete_errors credit_limit_not_found =
      report h 404 "Credit limit not found" credit_limit_not_found
  delete_errors credit_limit_in_use =
      report h 400 "Cannot delete credit limit in use" credit_limit_in_use
  delete_errors e = report h 500 "Failed to delete credit limit" e

  unfoldable pub delete : Request → Handler
  delete r = parse_or h (h.parse_uuid (r.params "id")) "Invalid credit limit ID" λ id.
      answer h (Service.delete p id) delete_errors
        (λ _. give h none "Credit limit deleted successfully")
