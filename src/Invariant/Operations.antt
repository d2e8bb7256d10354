-- ===== src/Invariant/Operations.antt =====
-- The calls that change credit limits keep what the four changes of the rows keep.
use kredit_plus.Base.{List, sym, subst, inl, inr}
use kredit_plus.Float.{Float64}
use kredit_plus.Entity.Error.{Uuid}
use kredit_plus.Entity.CreditLimit.{CreditLimit, CreateCreditLimitRequest}
use kredit_plus.Entity.Transaction.{Transaction, CreateTransactionRequest}
use kredit_plus.Platform.World.{Db, Platform}
use kredit_plus.Platform.Laws.{IsPlatform}
use kredit_plus.Platform.Monad.Effects.{Keeps, Keeps-of_ok, keeps_rules}
use kredit_plus.Repository.CreditLimit as LimitRepo
use kredit_plus.Repository.CreditLimit.{set_limits}
use kredit_plus.Repository.CreditLimit.Effects as LimitEffects
use kredit_plus.Repository.CreditLimit.Effects.{Charge}
use kredit_plus.Repository.Transaction as TransactionRepo
use kredit_plus.Repository.Transaction.Effects as TransactionEffects
use kredit_plus.Repository.Transaction.Create.{Stored, store-ok}
use kredit_plus.Service.CreditLimit as LimitService
use kredit_plus.Service.CreditLimit.Effects as LimitServiceEffects
use kredit_plus.Service.CreditLimit.Rules as Rules
use kredit_plus.Service.CreditLimit.Rules.{Opened}
use kredit_plus.Service.CreditLimit.Effects.{or_raise-ReadOnly}
use kredit_plus.Service.Transaction.{Approved, settle, create}
use kredit_plus.Service.Transaction.Effects.{approve-ReadOnly}
use kredit_plus.Platform.Table.{erase}
use kredit_plus.Invariant.Calls.{OfLimits, LimitCalls}

-- The changes of the rows that the code makes keep the property: a limit is opened, an amount is
-- charged, a transaction is stored, a row is deleted.
pub record RowChanges (Q : List CreditLimit → Type 0) (p : Platform) : Type 0 where
  pub opened :
      (req : CreateCreditLimitRequest) (db db' : Db)
      → Opened p req db db'
      → Q db.limits
      → Q db'.limits
  pub charged :
      (amount : Float64) (db db' : Db) (l : CreditLimit)
      → Charge p amount db db' l
      → Q db.limits
      → Q db'.limits
  pub stored : (t : Transaction) (db db' : Db) → Stored p t db db' → Q db.limits → Q db'.limits
  pub erased : (id : Uuid) (rows : List CreditLimit) → Q rows → Q (erase (λ r. r.id) id rows)

module _ (Q : List CreditLimit → Type 0) (p : Platform) (laws : IsPlatform p)
    (changes : RowChanges Q p) where
  pub create_limit-Keeps :
      (req : CreateCreditLimitRequest) → Keeps (OfLimits Q) (LimitService.create p req)
  create_limit-Keeps req =
      Keeps-of_ok _ (OfLimits Q) (LimitServiceEffects.create-Atomic p req)
        (λ w r w' h. changes.opened req w.db w'.db (Rules.create_limit-ok p laws req w h))

  pub update_used_amount-Keeps :
      (id : Uuid) (amount : Float64)
      → Keeps (OfLimits Q) (LimitService.update_used_amount p id amount)
  update_used_amount-Keeps id amount =
      Keeps-of_ok _ (OfLimits Q) (LimitServiceEffects.update_used_amount-Atomic p id amount)
        (λ w r w' h k. elim (Rules.update_used-ok p laws id amount w h) [
          | inl (z, same) ↦ subst (OfLimits Q) (sym same) k
          | inr (nz, (l, key, c)) ↦ changes.charged amount w.db w'.db l c k
        ])

  pub delete_limit-Keeps : (id : Uuid) → Keeps (OfLimits Q) (LimitService.delete p id)
  delete_limit-Keeps id =
      Keeps-of_ok _ (OfLimits Q) (LimitServiceEffects.delete-Atomic p id) (λ w r w' h k.
        let (l, was, key, unused, now_is) = Rules.delete_limit-ok p laws id w h in
        subst (OfLimits Q) (sym now_is) (changes.erased id w.db.limits k))

  pub charge-Keeps :
      (id : Uuid) (amount : Float64) → Keeps (OfLimits Q) (LimitRepo.update_used_amount p id amount)
  charge-Keeps id amount =
      Keeps-of_ok _ (OfLimits Q) (LimitEffects.update_used_amount-Atomic p id amount) (λ w r w' h k.
        let (l, key, c) = LimitEffects.update_limit-ok p laws id amount w h in
        changes.charged amount w.db w'.db l c k)

  pub store-Keeps : (t : Transaction) → Keeps (OfLimits Q) (TransactionRepo.create p t)
  store-Keeps t =
      Keeps-of_ok _ (OfLimits Q) (TransactionEffects.create-Atomic p t)
        (λ w r w' h. changes.stored t w.db w'.db (store-ok p laws t w h))

  settle-Keeps :
      (req : CreateTransactionRequest) (a : Approved) → Keeps (OfLimits Q) (settle p req a)
  unfolding settle
  settle-Keeps req a =
      search
        (
          keeps_rules, charge-Keeps, store-Keeps, TransactionEffects.get_by_id-ReadOnly,
          or_raise-ReadOnly,
        )
        depth 20

  -- A purchase may fail behind the first charge, which stays.
  pub purchase-Keeps : (req : CreateTransactionRequest) → Keeps (OfLimits Q) (create p req)
  unfolding create
  purchase-Keeps req = search (keeps_rules, settle-Keeps, approve-ReadOnly) depth 20

  pub RowChanges-LimitCalls : LimitCalls Q p
  RowChanges-LimitCalls = record {
    create_limit_keeps = create_limit-Keeps;
    update_used_amount_keeps = update_used_amount-Keeps;
    delete_limit_keeps = delete_limit-Keeps;
    purchase_keeps = purchase-Keeps;
  }
