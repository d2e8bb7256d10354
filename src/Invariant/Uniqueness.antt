-- ===== src/Invariant/Uniqueness.antt =====
-- The rows of the credit limits stay apart, whatever is called.
use kredit_plus.Base.{ℕ, false, List, [], ◌∷◌, ◌==◌, All, ◌≡◌, sym, subst, ◌∙◌, arith}
use kredit_plus.Float.{Float64, add}
use kredit_plus.Entity.CreditLimit.{CreditLimit, CreateCreditLimitRequest}
use kredit_plus.Entity.Transaction.{Transaction}
use kredit_plus.Platform.World.{Db, World, Platform}
use kredit_plus.Platform.Laws.{IsPlatform}
use kredit_plus.Repository.CreditLimit.{of_tenor}
use kredit_plus.Repository.CreditLimit.Effects.{Charge}
use kredit_plus.Repository.Transaction.Create.{Stored}
use kredit_plus.Service.CreditLimit.Rules.{Opened}
use kredit_plus.Invariant.Tenors.{
  Apart, OneEach, SameKeys, OneEach-append, OneEach-put, OneEach-erase,
}
use kredit_plus.Invariant.Calls.{Call, LimitCalls, OfLimits, run_calls, run_calls_keep}
use kredit_plus.Invariant.Operations.{RowChanges-LimitCalls}

-- the comparison of two rows goes both ways
of_tenor_sym :
    (a b : CreditLimit)
    → of_tenor b.customer_id b.tenor_month a ≡ false
    → of_tenor a.customer_id a.tenor_month b ≡ false
of_tenor_sym a b h = ground arith

-- the two conditions on a new row, for each row of the table
Apart-rows :
    (rows : List CreditLimit) (l : CreditLimit)
    → All (λ r. (r.id == l.id) ≡ false) rows
    → All (λ r. of_tenor l.customer_id l.tenor_month r ≡ false) rows
    → All (λ r. Apart r l) rows
Apart-rows [] l h k = tt
Apart-rows (x ∷ xs) l h k =
    (record { keys = h.0; tenors = of_tenor_sym x l k.0 }, Apart-rows xs l h.1 k.1)

module _ (p : Platform) (laws : IsPlatform p) where
  -- what the columns keep of a row has its keys
  stored-SameKeys :
      (n : ℕ) (l : CreditLimit) (used : Float64)
      → SameKeys l (p.limits.stored n (record l { used_amount = used }))
  stored-SameKeys n l used =
      let s = laws.limit_stored n (record l { used_amount = used }) in
      record {
        id = laws.limits.stored_key n (record l { used_amount = used });
        customer_id = s.customer_id;
        tenor_month = s.tenor_month;
      }

  Opened-OneEach :
      (req : CreateCreditLimitRequest) (db db' : Db)
      → Opened p req db db'
      → OneEach db.limits
      → OneEach db'.limits
  Opened-OneEach req db db' o h =
      let s = laws.limit_stored o.number o.limit in
      subst (OfLimits OneEach) (sym o.now_is) (
        OneEach-append db.limits _
          (Apart-rows db.limits _
            (subst (λ k. All (λ r. (r.id == k) ≡ false) db.limits)
              (sym (laws.limits.stored_key o.number o.limit)) o.fresh)
            (subst
              (λ k.
                All (λ r. of_tenor k (p.limits.stored o.number o.limit).tenor_month r ≡ false)
                  db.limits)
              (sym (s.customer_id ∙ o.customer_id))
              (subst (λ z. All (λ r. of_tenor req.customer_id z r ≡ false) db.limits)
                (sym (s.tenor_month ∙ o.tenor_month)) o.new)))
          h)

  Charge-OneEach :
      (amount : Float64) (db db' : Db) (l : CreditLimit)
      → Charge p amount db db' l
      → OneEach db.limits
      → OneEach db'.limits
  Charge-OneEach amount db db' l c h =
      subst (OfLimits OneEach) (sym c.now_is)
        (OneEach-put l _ db.limits (stored-SameKeys c.number l (add l.used_amount amount)) c.was h)

  Stored-OneEach :
      (t : Transaction) (db db' : Db) → Stored p t db db' → OneEach db.limits → OneEach db'.limits
  Stored-OneEach t db db' s h = subst (OfLimits OneEach) (sym s.now_is) (
      OneEach-put s.limit _ db.limits
        (stored-SameKeys s.limit_number s.limit (add s.limit.used_amount t.otr_amount)) s.was h)

-- the four calls keep any two limits apart
pub LimitCalls-OneEach : (p : Platform) → IsPlatform p → LimitCalls OneEach p
LimitCalls-OneEach p laws = RowChanges-LimitCalls OneEach p laws (record {
  opened = Opened-OneEach p laws;
  charged = Charge-OneEach p laws;
  stored = Stored-OneEach p laws;
  erased = OneEach-erase;
})

-- After any sequence of the service calls that write, in any order and whatever fails on the way,
-- any two credit limits have different keys and differ in the customer or the tenor, where any two
-- did before.
pub run_calls-OneEach :
    (p : Platform) (laws : IsPlatform p) (cs : List Call) (w : World)
    → OneEach w.db.limits
    → OneEach (run_calls p cs w).db.limits
run_calls-OneEach p laws = run_calls_keep OneEach p (LimitCalls-OneEach p laws)
