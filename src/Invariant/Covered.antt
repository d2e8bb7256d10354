-- ===== src/Invariant/Covered.antt =====
-- No customer uses more of a credit limit than it allows, whatever is called.
use kredit_plus.Base.{All, List, false, [], ◌≡◌, sym, subst, arith, All-append}
use kredit_plus.Float.{Float64, lt, le, zero_float}
use kredit_plus.Entity.CreditLimit.{CreditLimit, CreateCreditLimitRequest, validate}
use kredit_plus.Entity.Transaction.{Transaction}
use kredit_plus.Platform.World.{Db, Platform}
use kredit_plus.Platform.Laws.{IsPlatform}
use kredit_plus.Repository.CreditLimit.Effects.{Charge}
use kredit_plus.Repository.Transaction.Create.{Stored}
use kredit_plus.Service.CreditLimit.Rules.{Opened}
use kredit_plus.Invariant.{IsCovered, WithinLimits, All-put, All-erase, stored-IsCovered}
use kredit_plus.Platform.World.{World}
use kredit_plus.Invariant.Calls.{Call, LimitCalls, run_calls, run_calls_keep}
use kredit_plus.Invariant.Operations.{RowChanges, RowChanges-LimitCalls}

-- a valid request asks for a limit that is not below zero
pub positive_limit :
    (req : CreateCreditLimitRequest) → validate req ≡ [] → lt req.limit_amount zero_float ≡ false
unfolding validate le
positive_limit req h = ground arith

module _ (p : Platform) (laws : IsPlatform p) where
  Charge-WithinLimits :
      (amount : Float64) (db db' : Db) (l : CreditLimit)
      → Charge p amount db db' l
      → WithinLimits db
      → WithinLimits db'
  Charge-WithinLimits amount db db' l c h =
      subst WithinLimits (sym c.now_is)
        (All-put IsCovered (λ r. r.id) _ db.limits (stored-IsCovered p laws c.number _ c.room) h)

  Stored-WithinLimits :
      (t : Transaction) (db db' : Db) → Stored p t db db' → WithinLimits db → WithinLimits db'
  Stored-WithinLimits t db db' s h = subst WithinLimits (sym s.now_is) (
      All-put IsCovered (λ r. r.id) _ db.limits (stored-IsCovered p laws s.limit_number _ s.room) h)

  Opened-WithinLimits :
      (req : CreateCreditLimitRequest) (db db' : Db)
      → Opened p req db db'
      → WithinLimits db
      → WithinLimits db'
  Opened-WithinLimits req db db' o h = subst WithinLimits (sym o.now_is) (
      All-append IsCovered db.limits _ h (
        stored-IsCovered p laws o.number o.limit (
            subst (λ a. lt a o.limit.used_amount ≡ false) (sym o.limit_amount)
              (subst (λ a. lt req.limit_amount a ≡ false) (sym o.used_amount)
                (positive_limit req o.valid))),
        tt,
      ))

-- the changes of the rows keep all limits covered
pub IsCovered-RowChanges : (p : Platform) → IsPlatform p → RowChanges (All IsCovered) p
IsCovered-RowChanges p laws = record {
  opened = Opened-WithinLimits p laws;
  charged = Charge-WithinLimits p laws;
  stored = Stored-WithinLimits p laws;
  erased = λ id rows h. All-erase IsCovered (λ r. r.id) id rows h;
}

-- the four calls keep all limits covered
pub LimitCalls-IsCovered : (p : Platform) → IsPlatform p → LimitCalls (All IsCovered) p
LimitCalls-IsCovered p laws =
    RowChanges-LimitCalls (All IsCovered) p laws (IsCovered-RowChanges p laws)

-- After any sequence of the service calls that write, in any order and whatever fails on the
-- way, the used amount of no credit limit exceeds its limit amount, where none did before.
pub run_calls-WithinLimits :
    (p : Platform) (laws : IsPlatform p) (cs : List Call) (w : World)
    → WithinLimits w.db
    → WithinLimits (run_calls p cs w).db
run_calls-WithinLimits p laws = run_calls_keep (All IsCovered) p (LimitCalls-IsCovered p laws)
