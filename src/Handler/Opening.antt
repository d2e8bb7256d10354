-- ===== src/Handler/Opening.antt =====
-- When the request that opens a credit limit is answered with 201.
use kredit_plus.Base.{String, true, none, ◌+◌, ◌==◌, false, [], All, ◌≡◌, ◌∙◌, ap}
use kredit_plus.Entity.CreditLimit.{CreateCreditLimitRequest, CreditLimitResponse, validate}
use kredit_plus.Platform.Table.{ok, In}
use kredit_plus.Platform.World.{World, Platform}
use kredit_plus.Platform.Laws.{IsPlatform}
use kredit_plus.Platform.Monad.{M}
use kredit_plus.Repository.CreditLimit.{of_tenor}
use kredit_plus.Service.CreditLimit as Service
use kredit_plus.Repository.CreditLimit.Success.{fits_column}
use kredit_plus.Service.CreditLimit.Success.{Answers, IsOpened, create_succeeds}
use kredit_plus.Entity.Error.{Error}
use kredit_plus.Handler.{
  Parsed, Handler, parse_or, Payload, answered, Request, Reply, Http, parsed, credit_limit,
  give_created, answer, answer_result,
}
use kredit_plus.Handler.CreditLimit.{create}
use kredit_plus.Handler.Lookups.{send_answered}
use kredit_plus.Response.{Response, created}
use kredit_plus.Entity.Customer.{Customer}

pub parsed_then :
    {A : Type 0} (h : Http) (a : Parsed A) (x : A) (text : String) (k : A → Handler) (w : World)
    → a ≡ parsed x
    → parse_or h a text k w ≡ k x w
unfolding parse_or
parsed_then h a x text k w e = ap (λ a. parse_or h a text k w) e

pub answer-ok :
    {A : Type 0} (h : Http) (m : M A) (on_error : Error → Reply) (on_value : A → Reply) (w : World)
    (a : A) (w1 : World)
    → m w ≡ (ok a, w1)
    → answer h m on_error on_value w ≡ (on_value a, w1)
unfolding answer answer_result
answer-ok h m on_error on_value w a w1 e = ap (λ r. (answer_result h on_error on_value r.0, r.1)) e

-- A valid request for a limit that the customer does not have is answered with 201, and with the
-- identifier that is drawn, the customer, the tenor and the amount of the request and nothing used:
-- where the customer stands, the columns take the amount, the identifier is new, the database
-- answers and every response can be encoded.
pub create_answered :
    (p : Platform) (laws : IsPlatform p) (h : Http) (r : Request) (w : World)
    (req : CreateCreditLimitRequest) (c : Customer)
    → Answers p w.db
    → ((x : Response Payload) → h.encode x ≡ none)
    → h.create_limit r.body ≡ parsed req
    → validate req ≡ []
    → In c w.db.customers
    → c.id ≡ req.customer_id
    → fits_column req.limit_amount ≡ true
    → All (λ l. of_tenor req.customer_id req.tenor_month l ≡ false) w.db.limits
    → All (λ l. (l.id == p.new_uuid (w.tick + 1)) ≡ false) w.db.limits
    → (l : CreditLimitResponse) × IsOpened req (p.new_uuid (w.tick + 1)) l
      × ((create p h r w).0
          ≡ answered 201 (created (credit_limit l) "Credit limit created successfully"))
unfolding create give_created
create_answered p laws h r w req c answers encodes reads valid stands owner fits new fresh =
    let (l, w', e, opened) =
      create_succeeds p laws req c w answers valid stands owner fits new fresh in
    (
      l,
      opened,
      ap (λ v. v.0)
            (parsed_then h _ req _ _ w reads ∙ answer-ok h (Service.create p req) _ _ w l w' e)
          ∙ send_answered p h encodes _ _,
    )
