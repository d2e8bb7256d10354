-- ===== src/Tests/Web.antt =====
-- What the requests of the tests hold, as the parsers read it.
use kredit_plus.Base.{pos, if◌then◌else◌, String, str_eq, none}
use kredit_plus.Float.{of_int, zero_float}
use kredit_plus.Entity.Error.{Uuid}
use kredit_plus.Entity.CreditLimit.{CreateCreditLimitRequest}
use kredit_plus.Entity.Customer.{CreateCustomerRequest, UploadDocumentRequest}
use kredit_plus.Entity.Transaction.{CreateTransactionRequest}
use kredit_plus.Handler.{Request, Http, Parsed, parsed, unparsed}
use kredit_plus.Tests.Fixtures.{morning, order, six_months}

-- a second limit for three months
abbrev pub second_limit : CreateCreditLimitRequest
second_limit = record six_months { tenor_month = pos 3 }

-- a limit for a tenor that there is none of
abbrev pub four_months : CreateCreditLimitRequest
four_months = record six_months { tenor_month = pos 4 }

abbrev pub unnamed_order : CreateTransactionRequest
unnamed_order = record order { contract_number = "" }

-- a customer with the NIK of the one in the shop
abbrev budi_again : CreateCustomerRequest
budi_again = record {
  nik = "3201010101010001";
  full_name = "Budi";
  legal_name = "Budi Santoso";
  birth_place = "Bogor";
  birth_date = morning;
  salary = of_int (pos 9000);
}

abbrev identity_card : UploadDocumentRequest
identity_card = record { document_type = "ktp"; document_url = "https://files/ktp.png" }

abbrev id_text : String → Parsed Uuid
id_text s =
    if str_eq s "5"
    then parsed 5
    else if str_eq s "1"
    then parsed 1
    else unparsed "invalid UUID length: 1"

abbrev limit_body : String → Parsed CreateCreditLimitRequest
limit_body s =
    if str_eq s "second"
    then parsed second_limit
    else if str_eq s "bad"
    then parsed four_months
    else parsed six_months

abbrev order_body : String → Parsed CreateTransactionRequest
order_body s = if str_eq s "bad" then parsed unnamed_order else parsed order

abbrev pub web : Http
web = record {
  parse_uuid = id_text;
  parse_float = λ s. zero_float;
  quote = λ s. s;
  create_customer = λ s. parsed budi_again;
  update_customer = λ s. unparsed "EOF";
  upload_document = λ s. parsed identity_card;
  create_limit = limit_body;
  update_used_amount = λ s. parsed (record { amount = of_int (pos 9000) });
  create_asset = λ s. unparsed "EOF";
  update_asset = λ s. unparsed "EOF";
  create_transaction = order_body;
  update_status = λ s. unparsed "EOF";
  encode = λ r. none;
}

-- the parameter and the body of a request; its query is empty
abbrev pub request : String → String → Request
request id body = record { params = λ name. id; query = λ name default. default; body = body }
