-- ===== src/Repository/Transaction/Create.antt =====
-- `Create` of the transaction repository: all that it writes, when it succeeds.
use kredit_plus.Base.{ℕ, false, true, List, [], ◌∷◌, ◌++◌, map, ◌≡◌, ap, ◌∙◌}
use kredit_plus.Float.{Float64, add, lt}
use kredit_plus.Entity.CreditLimit.{CreditLimit}
use kredit_plus.Entity.Transaction.{Transaction, TransactionDetail}
use kredit_plus.Platform.Table.{ok, In, put}
use kredit_plus.Platform.World.{Db, World, Platform}
use kredit_plus.Platform.Laws.{IsPlatform}
use kredit_plus.Platform.Monad.{step}
use kredit_plus.Platform.Monad.Effects.{after_reads}
use kredit_plus.Platform.Monad.Outcomes.{
  require-ok, after_transaction, after_query, after_guard, after_write, last_write,
}
use kredit_plus.Repository.CreditLimit.{of_tenor, set_limits}
use kredit_plus.Repository.Transaction.{
  create, generate_installments, set_transactions, set_details,
}
use kredit_plus.Repository.Transaction.Effects.{generate_installments-ReadOnly}

-- the row with the amount added to what is used
abbrev pub charged : CreditLimit → Float64 → CreditLimit
charged l amount = record l { used_amount = add l.used_amount amount }

-- A stored transaction: the row itself, the installments that were generated for it, and the
-- charge of the asset's price to the limit of the customer and the tenor.
pub record Stored (p : Platform) (t : Transaction) (db db' : Db) : Type 0 where
  pub limit : CreditLimit
  pub was : In limit db.limits
  pub owner : of_tenor t.customer_id t.tenor_month limit ≡ true
  pub room : lt limit.limit_amount (add limit.used_amount t.otr_amount) ≡ false
  pub installments : List TransactionDetail
  pub before : World
  pub generated : (generate_installments p t before).0 ≡ ok installments
  pub number : ℕ
  pub detail_number : ℕ
  pub limit_number : ℕ
  pub now_is : db' ≡ record db {
    transactions = db.transactions ++ p.transactions.stored number t ∷ [];
    details = db.details ++ map (p.details.stored detail_number) installments;
    limits = put (λ l. l.id) (p.limits.stored limit_number (charged limit t.otr_amount)) db.limits;
  }

-- the three writes put together
together :
    {rows ts : List Transaction} {drows : List TransactionDetail} {lrows : List CreditLimit}
    (db db2 : Db) (ds : List TransactionDetail) (l : CreditLimit)
    → db2 ≡ set_transactions rows db
    → rows ≡ ts
    → drows ≡ db2.details ++ ds
    → lrows ≡ put (λ r. r.id) l db2.limits
    → set_limits lrows (set_details drows db2) ≡ record db {
      transactions = ts;
      details = db.details ++ ds;
      limits = put (λ r. r.id) l db.limits;
    }
together db db2 ds l e a b c = cc

module _ (p : Platform) (laws : IsPlatform p) where
  -- Where the repository stores a transaction, its row and its installments are appended and the
  -- asset's price is charged to the limit of the customer and the tenor, which had room for it.
  pub store-ok :
      (t : Transaction) (w : World) {w' : World}
      → create p t w ≡ (ok tt, w')
      → Stored p t w.db w'.db
  unfolding create
  store-ok t w h = after_transaction p _ w h λ w1 e d. after_query _ _ _ (step w) e λ l q e1.
      after_guard _ _ _ _ e1 λ room e2. after_write _ _ _ _ _ e2 λ rows e3 e4.
        after_reads _ _ _ (generate_installments-ReadOnly p t) e4 λ ds w2 e5 same e6.
          after_write _ _ _ _ _ e6 λ drows e7 e8. last_write _ _ _ _ e8 λ lrows e9 d1.
            let (was, m) = laws.limits.first_found _ _ _ l (require-ok _ q) in
            record {
              limit = l;
              was = was;
              owner = m;
              room = room;
              installments = ds;
              before = _;
              generated = ap (λ r. r.0) e5;
              number = _;
              detail_number = w2.tick;
              limit_number = (step w2).tick;
              now_is =
                  d
                  ∙ d1
                  ∙ together w.db w2.db (map (p.details.stored w2.tick) ds)
                      (p.limits.stored (step w2).tick (charged l t.otr_amount)) same
                      (laws.transactions.create_ok _ _ _ _ e3) (laws.create_details_ok _ _ _ _ e7)
                      (laws.limits.save_ok _ _ _ _ e9);
            }
