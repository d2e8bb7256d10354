-- ===== src/Repository/Customer/Writes.antt =====
-- What the writes of the customer repository do to the tables, when they succeed.
use kredit_plus.Base.{sym, ℕ, false, [], ◌∷◌, ◌++◌, ◌==◌, true, ◌≡◌, ap, ◌∙◌}
use kredit_plus.Entity.Error.{Uuid}
use kredit_plus.Entity.Customer.{Customer, CustomerDocument}
use kredit_plus.Platform.Table.{ok, In, change}
use kredit_plus.Platform.World.{Db, World, Platform}
use kredit_plus.Platform.Laws.{IsPlatform}
use kredit_plus.Platform.Monad.{step}
use kredit_plus.Platform.Monad.Effects.{ReadOnly-ignore, ReadOnly-cache_del}
use kredit_plus.Platform.Monad.Outcomes.{
  after_query, after_transaction, after_write, last_write, require-ok,
}
use kredit_plus.Repository.Customer.{create, delete, create_document, set_customers, set_documents}

-- the rows of the key made inactive
abbrev pub deactivated : Platform → Uuid → ℕ → Db → Db
deactivated p id n db =
    set_customers
      (change (λ c. c.id == id) (λ c. p.customers.stored n (record c { is_active = false }))
        db.customers)
      db

module _ (p : Platform) (laws : IsPlatform p) where
  pub append_customer-ok :
      (c : Customer) (w : World) {w' : World}
      → create p c w ≡ (ok tt, w')
      → (n : ℕ) × (w'.db ≡ set_customers (w.db.customers ++ p.customers.stored n c ∷ []) w.db)
  unfolding create
  append_customer-ok c w h = after_transaction p _ w h λ w1 e d. last_write _ _ _ _ e λ rows e1 d1.
      (_, d ∙ d1 ∙ ap (λ r. set_customers r w.db) (laws.customers.create_ok _ _ _ _ e1))

  pub deactivate-ok :
      (id : Uuid) (w : World) {w' : World}
      → delete p id w ≡ (ok tt, w')
      → (c : Customer) × In c w.db.customers
        × ((c.id == id) ≡ true)
        × ((n : ℕ) × (w'.db ≡ deactivated p id n w.db))
  unfolding delete
  deactivate-ok id w {w'} h = after_transaction p _ w h λ w1 e d.
      after_query _ _ _ (step w) e λ c q e1. after_write _ _ _ _ _ e1 λ rows e2 e3.
        let (was, m) = laws.customers.first_found _ _ _ c (require-ok _ q) in
        (
          c,
          was,
          m,
          (
            _,
            d
                ∙ ap (λ r. r.1.db) (sym e3)
                ∙ (ReadOnly-ignore _ (ReadOnly-cache_del p _)).at _
                ∙ ap (λ r. set_customers r w.db) (laws.customers.update_ok _ _ _ _ _ e2),
          ),
        )

  pub append_document-ok :
      (doc : CustomerDocument) (w : World) {w' : World}
      → create_document p doc w ≡ (ok tt, w')
      → (n : ℕ) × (w'.db ≡ set_documents (w.db.documents ++ p.documents.stored n doc ∷ []) w.db)
  unfolding create_document
  append_document-ok doc w {w'} h = after_transaction p _ w h λ w1 e d.
      after_write _ _ _ _ _ e λ rows e1 e2. (
        _,
        d
            ∙ ap (λ r. r.1.db) (sym e2)
            ∙ (ReadOnly-ignore _ (ReadOnly-cache_del p _)).at _
            ∙ ap (λ r. set_documents r w.db) (laws.documents.create_ok _ _ _ _ e1),
      )
