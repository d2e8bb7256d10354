-- ===== src/Handler.antt =====
-- internal/handler: what each HTTP request is answered with. What the handlers share is here: the
-- request as `fiber.Ctx` shows it, the answer, and the calls of fiber, uuid and encoding/json, which
-- are a record of functions.
pub mod Customer
pub mod CreditLimit
pub mod Asset
pub mod Transaction
pub mod Routes
pub mod Routing
pub mod Effects
pub mod Served
pub mod Calling
pub mod Requests
pub mod Statuses
pub mod Conflicts
pub mod Pages
pub mod Opening
pub mod Buying
pub mod Lookups
pub mod Totals
use kredit_plus.Base.{ℕ, ℤ, String, List, [], ◌∷◌, Option, none, some, map}
use kredit_plus.Float.{Float64}
use kredit_plus.Strconv.{Atoi, atoi}
use kredit_plus.Entity.Error.{Uuid, Error, nil_dereference, error_text}
use kredit_plus.Entity.Asset.{AssetResponse, CreateAssetRequest, UpdateAssetRequest}
use kredit_plus.Entity.CreditLimit.{CreditLimitResponse, CreateCreditLimitRequest}
use kredit_plus.Entity.Customer.{
  CustomerResponse, CustomerDocumentResponse, CreateCustomerRequest, UpdateCustomerRequest,
  UploadDocumentRequest,
}
use kredit_plus.Entity.Transaction.{
  TransactionResponse, CreateTransactionRequest, TransactionStatus,
}
use kredit_plus.Platform.Table.{Result, ok, err}
use kredit_plus.Platform.World.{World}
use kredit_plus.Platform.Monad.{M}
use kredit_plus.Response.{Response, success, created, failure, validate_pagination}

-- What is answered with: the `Data` of a response.
pub data Payload : Type 0 where
  customer : CustomerResponse → Payload
  document : CustomerDocumentResponse → Payload
  documents : List CustomerDocumentResponse → Payload
  credit_limit : CreditLimitResponse → Payload
  credit_limits : List CreditLimitResponse → Payload
  asset : AssetResponse → Payload
  assets : List AssetResponse → Payload
  transaction : TransactionResponse → Payload
  transactions : List TransactionResponse → Payload

-- A request: the parameters of its path, its query (`Query(key, default)`), and its body.
pub record Request : Type 0 where
  pub params : String → String
  pub query : String → String → String
  pub body : String

-- A value that was read from a text, or the text of the error.
pub data Parsed (A : Type 0) : Type 0 where
  parsed : A → Parsed A
  unparsed : String → Parsed A

-- the bodies of two requests
pub record UpdateUsedAmountRequest : Type 0 where
  pub amount : Float64

pub record UpdateTransactionStatusRequest : Type 0 where
  pub status : TransactionStatus

pub record Http : Type 0 where
  -- `uuid.Parse`
  pub parse_uuid : String → Parsed Uuid
  -- `strconv.ParseFloat`, its error dropped
  pub parse_float : String → Float64
  -- `strconv.Quote`
  pub quote : String → String
  -- `BodyParser`, for each type that it is called with
  pub create_customer : String → Parsed CreateCustomerRequest
  pub update_customer : String → Parsed UpdateCustomerRequest
  pub upload_document : String → Parsed UploadDocumentRequest
  pub create_limit : String → Parsed CreateCreditLimitRequest
  pub update_used_amount : String → Parsed UpdateUsedAmountRequest
  pub create_asset : String → Parsed CreateAssetRequest
  pub update_asset : String → Parsed UpdateAssetRequest
  pub create_transaction : String → Parsed CreateTransactionRequest
  pub update_status : String → Parsed UpdateTransactionStatusRequest
  -- the encoding of a response as JSON, with the text of the error if it fails
  pub encode : Response Payload → Option String

-- What a client is sent: a response with its status, the body of the error handler, or nothing, where
-- a panic stops the program.
pub data Reply : Type 0 where
  answered : ℕ → Response Payload → Reply
  rejected : ℕ → String → Reply
  crashed : Reply

-- The errors that reach the error handler: fiber's own, with a status, or any other.
pub data Failure : Type 0 where
  fiber_error : ℕ → String → Failure
  other_error : String → Failure

-- `customErrorHandler` of cmd/main.go
unfoldable pub custom_error_handler : Failure → Reply
custom_error_handler (fiber_error code text) = rejected code text
custom_error_handler (other_error text) = rejected 500 text

-- a handler that is given a request answers it
abbrev pub Handler : Type 0
Handler = World → Reply × World

module _ (h : Http) where
  encoded : ℕ → Response Payload → Option String → Reply
  unfolding custom_error_handler
  encoded status r none = answered status r
  encoded status r (some text) = custom_error_handler (other_error text)

  -- `c.Status(status).JSON(r)`
  unfoldable pub send : ℕ → Response Payload → Reply
  unfolding encoded
  send status r = encoded status r (h.encode r)

  -- an error with its status and texts
  unfoldable pub refuse : ℕ → String → List String → Reply
  refuse status text errors = send status (failure status text errors)

  unfoldable pub report : ℕ → String → Error → Reply
  report status text e = refuse status text (error_text e ∷ [])

  unfoldable pub give : Option Payload → String → Reply
  give payload text = send 200 (success payload text)

  unfoldable pub give_created : Payload → String → Reply
  give_created payload text = send 201 (created payload text)

  -- A value of the request that does not parse is refused with 400.
  unfoldable pub parse_or : {A : Type 0} → Parsed A → String → (A → Handler) → Handler
  parse_or (parsed a) text k w = k a w
  parse_or (unparsed e) text k w = (refuse 400 text (e ∷ []), w)

  answer_result : {A : Type 0} → (Error → Reply) → (A → Reply) → Result A → Reply
  answer_result on_error on_value (ok a) = on_value a
  answer_result on_error on_value (err nil_dereference) = crashed
  answer_result on_error on_value (err e) = on_error e

  -- The call of a service, and what is answered on its error and on its value.
  unfoldable pub answer : {A : Type 0} → M A → (Error → Reply) → (A → Reply) → Handler
  unfolding answer_result
  answer m on_error on_value w = let (r, w') = m w in (answer_result on_error on_value r, w')

-- the page and the rows per page that a query asks for; the errors of `Atoi` are dropped
unfoldable pub asked_page : Request → ℤ × ℤ
asked_page r =
    validate_pagination (atoi (r.query "page" "1")).value (atoi (r.query "per_page" "10")).value
