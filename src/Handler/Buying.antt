-- ===== src/Handler/Buying.antt =====
-- When the request that buys an asset is answered with 201.
use kredit_plus.Base.{ap, none, [], ◌≡◌, ◌∙◌}
use kredit_plus.Entity.Transaction.{CreateTransactionRequest, TransactionResponse, validate}
use kredit_plus.Platform.Table.{ok}
use kredit_plus.Platform.World.{World, Platform}
use kredit_plus.Platform.Laws.{IsPlatform}
use kredit_plus.Repository.Transaction.Accepted.{SaleAnswers, DrawsNew}
use kredit_plus.Service.Transaction as Service
use kredit_plus.Service.Transaction.{Approved, approve}
use kredit_plus.Service.Transaction.Success.{HasRoom, FitsOrder, Stand, IsSold, purchase_succeeds}
use kredit_plus.Invariant.Tenors.{OneEach}
use kredit_plus.Handler.{Payload, answered, Request, Http, parsed, transaction, give_created}
use kredit_plus.Handler.Transaction.{create}
use kredit_plus.Response.{Response, created}
use kredit_plus.Handler.Lookups.{send_answered}
use kredit_plus.Handler.Opening.{parsed_then, answer-ok}

-- A valid order that is approved is answered with 201 and the transaction, which has the identifier
-- that is drawn, the customer, the asset, the contract number and the tenor of the order and the
-- status "pending": where the customer and the asset stand, the limit has room for the total and for
-- the price and the total together, the columns take what is written, each customer has one limit
-- for a tenor, the identifiers that are drawn are new, the database answers and every response can be
-- encoded.
pub purchase_answered :
    (p : Platform) (laws : IsPlatform p) (h : Http) (r : Request) (w : World)
    (req : CreateTransactionRequest) (a : Approved) (w1 : World)
    → SaleAnswers p w.db
    → DrawsNew p w.db w1.tick
    → ((x : Response Payload) → h.encode x ≡ none)
    → h.create_transaction r.body ≡ parsed req
    → validate req ≡ []
    → approve p req w ≡ (ok a, w1)
    → Stand req w.db
    → FitsOrder req a
    → HasRoom p req a
    → OneEach w.db.limits
    → (t : TransactionResponse) × IsSold req (p.new_uuid w1.tick) t
      × ((create p h r w).0
          ≡ answered 201 (created (transaction t) "Transaction created successfully"))
unfolding create give_created
purchase_answered p laws h r w req a w1 answers draws encodes reads valid approved stand fits room
      one =
    let (t, w', e, is_sold) =
      purchase_succeeds p laws req w a w1 answers draws valid approved stand fits room one in
    (
      t,
      is_sold,
      ap (λ v. v.0)
            (parsed_then h _ req _ _ w reads ∙ answer-ok h (Service.create p req) _ _ w t w' e)
          ∙ send_answered p h encodes _ _,
    )
