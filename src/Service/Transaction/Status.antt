-- ===== src/Service/Transaction/Status.antt =====
-- `UpdateStatus` of the transaction service.
use kredit_plus.Base.{ℕ, true, List, ◌==◌, ◌≡◌, ap, ◌∙◌, ==_iff}
use kredit_plus.Entity.Error.{Uuid}
use kredit_plus.Entity.Transaction.{Transaction, TransactionStatus, is_valid_status}
use kredit_plus.Platform.Table.{ok, change}
use kredit_plus.Platform.World.{Db, World, Platform}
use kredit_plus.Platform.Laws.{IsPlatform}
use kredit_plus.Platform.Monad.{step}
use kredit_plus.Platform.Monad.Effects.{after_reads, ReadOnly-wrap}
use kredit_plus.Platform.Monad.Outcomes.{
  after_guard, after_query, after_transaction, last_write, require-ok, wrap-ok,
}
use kredit_plus.Repository.Transaction as Repo
use kredit_plus.Repository.Transaction.{set_transactions}
use kredit_plus.Repository.Transaction.Effects as Effects
use kredit_plus.Service.Transaction.{update_status}
use kredit_plus.Service.Transaction.Approval.{after_set, not-false}

-- the rows of the key with the status set
abbrev pub with_status : Platform → Uuid → ℕ → TransactionStatus → Db → List Transaction
with_status p id n status db =
    change (λ t. t.id == id) (λ t. p.transactions.stored n (record t { status = status }))
      db.transactions

module _ (p : Platform) (laws : IsPlatform p) where
  -- A change of status that succeeds asked for one of the three statuses, and sets it in the rows
  -- of the transaction's key, and nowhere else.
  pub update_status-ok :
      (id : Uuid) (status : TransactionStatus) (w : World) {w' : World}
      → update_status p id status w ≡ (ok tt, w')
      → (is_valid_status status ≡ true)
        × ((n : ℕ) × (w'.db ≡ set_transactions (with_status p id n status w.db) w.db))
  unfolding update_status Repo.update_status
  update_status-ok id status w {w'} h = after_guard _ _ _ w h λ valid h1.
      after_reads _ _ w (ReadOnly-wrap _ _ (Effects.get_by_id-ReadOnly p id)) h1 λ o w1 e1 same1 h2.
        after_set o _ _ w1 h2 λ t e2 h3. after_transaction p _ w1 (wrap-ok _ _ _ h3) λ w2 e3 d.
          after_query _ _ _ (step w1) e3 λ row q e4. last_write _ _ _ _ e4 λ rows e5 d1.
            let (was, m) = laws.transactions.first_found _ _ _ row (require-ok _ q) in
            let key : row.id ≡ id = (==_iff row.id id).0 m in
            (
              not-false _ valid,
              (
                (step (step w1)).tick,
                d
                    ∙ d1
                    ∙ ap (λ r. set_transactions r w1.db)
                        (laws.transactions.update_ok _ _ _ _ _ e5
                          ∙ ap (λ k. with_status p k (step (step w1)).tick status w1.db) key)
                    ∙ ap
                        (λ (db : Db).
                          set_transactions (with_status p id (step (step w1)).tick status db) db)
                        same1,
              ),
            )
