-- ===== src/Service/Transaction/Purchase.antt =====
-- `Create` of the transaction service: what a purchase does to the tables.
use kredit_plus.Base.{arith, false, [], ◌≡◌, sym, ap, ◌∙◌, subst}
use kredit_plus.Float.{sub, lt}
use kredit_plus.Time.{Time}
use kredit_plus.Entity.Error.{Uuid, Error, wrapped}
use kredit_plus.Entity.CreditLimit.{CreditLimit}
use kredit_plus.Entity.Transaction.{TransactionResponse, CreateTransactionRequest, validate}
use kredit_plus.Platform.Table.{ok, err}
use kredit_plus.Platform.World.{Db, World, Platform}
use kredit_plus.Platform.Laws.{IsPlatform}
use kredit_plus.Platform.Monad.{wrap, ◌>>=◌, ◌>>◌, fail_if, now, new_uuid, step}
use kredit_plus.Platform.Monad.Effects.{after_reads, after_stamps, ReadOnly-wrap}
use kredit_plus.Platform.Monad.Outcomes.{after_guard, after_step, wrap-ok, pure-ok}
use kredit_plus.Repository.CreditLimit as LimitRepo
use kredit_plus.Repository.CreditLimit.Effects as LimitEffects
use kredit_plus.Repository.CreditLimit.Effects.{Charge}
use kredit_plus.Repository.Transaction as Repo
use kredit_plus.Repository.Transaction.Effects as RepoEffects
use kredit_plus.Repository.Transaction.Create as RepoCreate
use kredit_plus.Repository.Transaction.Create.{Stored}
use kredit_plus.Service.CreditLimit.Effects.{or_raise-ReadOnly}
use kredit_plus.Service.CreditLimit.Rules.{is_empty-nil}
use kredit_plus.Service.Transaction.{
  Approved, approve, settle, create, new_transaction, total_amount,
}
use kredit_plus.Service.Transaction.Effects.{approve-ReadOnly}

-- A settled purchase. The transaction is stored, which charges the asset's price to the limit of
-- the customer and the tenor; then the total is charged to the limit that was approved.
pub record Settled (p : Platform) (req : CreateTransactionRequest) (a : Approved) (db db' : Db)
    : Type 0 where
  pub affordable :
      lt (sub a.limit.limit_amount a.limit.used_amount) (total_amount a.asset req) ≡ false
  pub id : Uuid
  pub created_at : Time
  pub updated_at : Time
  pub middle : Db
  pub stored : Stored p (new_transaction req a id created_at updated_at) db middle
  pub limit : CreditLimit
  pub limit_id : limit.id ≡ a.limit.id
  pub charge : Charge p (total_amount a.asset req) middle db' limit

module _ (p : Platform) (laws : IsPlatform p) where
  pub settle-ok :
      (req : CreateTransactionRequest) (a : Approved) (w : World) {r : TransactionResponse}
      {w' : World}
      → settle p req a w ≡ (ok r, w')
      → Settled p req a w.db w'.db
  unfolding settle
  settle-ok req a w {r} {w'} h = after_guard _ _ _ _ h λ affordable h1.
      after_stamps p _ _ h1 λ id c u w1 same1 h2. after_step _ _ _ h2 λ w2 e2 h3.
        after_step _ _ _ h3 λ w3 e3 h4.
          after_reads _ _ _ (ReadOnly-wrap _ _ (RepoEffects.get_by_id-ReadOnly p id)) h4
            λ row w4 e4 same4 h5. after_reads _ _ _ (or_raise-ReadOnly row _) h5 λ t w5 e5 same5 h6.
              let (l, key, ch) = LimitEffects.update_limit-ok p laws _ _ _ (wrap-ok _ _ _ e3) in
              record {
                affordable = affordable;
                id = id;
                created_at = c;
                updated_at = u;
                middle = w2.db;
                stored =
                    subst (λ (db : Db). Stored p (new_transaction req a id c u) db w2.db) same1
                      (RepoCreate.store-ok p laws _ _ (wrap-ok _ _ _ e2));
                limit = l;
                limit_id = key;
                charge =
                    subst (λ (db : Db). Charge p (total_amount a.asset req) w2.db db l)
                      (sym ((pure-ok _ _ h6).1 ∙ same5 ∙ same4)) ch;
              }

  -- A purchase that succeeds had a valid request and was approved; the transaction was stored,
  -- which charged the price, and then the total was charged to the limit that was approved.
  pub purchase-ok :
      (req : CreateTransactionRequest) (w : World) {r : TransactionResponse} {w' : World}
      → create p req w ≡ (ok r, w')
      → (validate req ≡ [])
        × ((a : Approved) × ((approve p req w).0 ≡ ok a) × Settled p req a w.db w'.db)
  unfolding create
  purchase-ok req w {r} {w'} h = after_guard _ _ _ _ h λ valid h1.
      after_reads _ _ _ (approve-ReadOnly p req) h1 λ a w1 e1 same1 h2. (
        is_empty-nil _ valid,
        (
          a,
          ap (λ v. v.0) e1,
          subst (λ (db : Db). Settled p req a db w'.db) same1 (settle-ok req a w1 h2),
        ),
      )

  -- Where the transaction could be stored and the total can not be charged any more, the purchase
  -- fails and the stored transaction stays.
  pub settle_keeps_Stored :
      (req : CreateTransactionRequest) (a : Approved) (w : World) {w1 w2 : World} {e : Error}
      → lt (sub a.limit.limit_amount a.limit.used_amount) (total_amount a.asset req) ≡ false
      → let t =
          new_transaction req a
            (p.new_uuid w.tick)
            (p.now (step w).tick)
            (p.now (step (step w)).tick) in
        Repo.create p t (step (step (step w))) ≡ (ok tt, w1)
        → LimitRepo.update_used_amount p a.limit.id (total_amount a.asset req) w1 ≡ (err e, w2)
        → (settle p req a w ≡ (err (wrapped "failed to update credit limit" e), w2))
          × Stored p t w.db w2.db
  unfolding settle ◌>>=◌ ◌>>◌ fail_if new_uuid now wrap
  settle_keeps_Stored req a w {w1} {w2} {e} affordable stored refused =
      let same : w2.db ≡ w1.db =
        cc (
          refused,
          (LimitEffects.update_used_amount-Atomic p _ _).at w1 e (ap (λ r. r.0) refused),
        ) in
      (
        ground arith,
        subst
            (λ (db : Db).
              Stored p
                (new_transaction req a (p.new_uuid w.tick) (p.now (step w).tick)
                  (p.now (step (step w)).tick))
                w.db db)
            (sym same) (RepoCreate.store-ok p laws _ _ stored),
      )
